-- ===== src/Transaction/Applied.antt =====
-- What a successful `apply` has done.
use lifeos_platform.Prelude.{
  ℕ, String, ◌≡◌, ◌∙◌, sym, ap, true, Option, some, arith, eq_refl, eq_iff,
}
use lifeos_platform.Prelude.Keyed.{update}
use lifeos_platform.Prelude.Post.{Post-weaken, gets-Post, >>=-Post, guard-Post}
use lifeos_platform.Transaction.World.{Platform, File, Prior, Manifest, World, applying, verifying}
use lifeos_platform.Transaction.Phases.{file_mode, apply}
use lifeos_platform.Transaction.Exact.{
  Returns, load_exact, save_exact, sha256_exact, replace_file_exact,
}

abbrev pub by_root : String → ℕ → File
by_root content mode = record { content = content; mode = mode; owner = 0; regular = true }

abbrev pub files_of : World → String → Option File
files_of w = w.files

abbrev pub backups_of : World → String → Option File
backups_of w = w.backups

abbrev pub id_of : Manifest → String
id_of m = m.transaction_id

abbrev pub prior_of : Manifest → Prior
prior_of m = m.prior

abbrev pub destination_of : Manifest → String
destination_of m = m.destination

-- What a successful `apply` has done, given the manifest that it found.
pub record IsApplied (os : Platform) (n : Manifest) (w : World) (m : Manifest) (t : World)
    : Type 0 where
  pub source : File
  pub read_from : w.files n.source ≡ some source
  pub intended : os.digest source.content ≡ n.intended_sha256
  pub stored : t.manifests n.transaction_id ≡ some m
  pub state : m.state ≡ verifying
  pub same_prior : m.prior ≡ n.prior
  pub same_destination : m.destination ≡ n.destination
  pub same_id : m.transaction_id ≡ n.transaction_id
  pub same_backups : t.backups ≡ w.backups
  pub files :
      t.files
      ≡ update w.files n.destination (some (by_root source.content (file_mode os n.destination)))

module _ (os : Platform) (id : String) where
  pub apply_exact :
      (w : World)
      → Returns
          (λ m t. (n : Manifest) × (w.manifests id ≡ some n) × IsApplied os n w m t)
          (apply os id w)
  unfolding apply
  apply_exact w = >>=-Post _ _ _ (load_exact os id w) λ n a (e, f). guard-Post _ _ _ a tt λ on.
      gets-Post _ _ a (
        >>=-Post _ _ _ (sha256_exact os (a.files n.source) a) λ actual b (source, g, d, h).
          guard-Post _ _ _ b tt λ same.
            >>=-Post _ _ _ (save_exact os (record n { state = applying }) b) λ r c (k, l).
              >>=-Post _ _ _ (replace_file_exact os _ n.destination _ c) λ _ u (file, count, x, y).
                Post-weaken {R = λ _. Unit {0}} (save_exact os (record r { state = verifying }) u)
                  (λ m t (z, v).
                    let cf : c.files ≡ w.files = ap files_of l ∙ (ap files_of h ∙ ap files_of f) in
                    let cb : c.backups ≡ w.backups =
                      ap backups_of l ∙ (ap backups_of h ∙ ap backups_of f) in
                    let read : w.files n.source ≡ some source =
                      ap (λ (q : World). q.files n.source) (sym f) ∙ g in
                    let same_file : file ≡ source =
                      cc (x, read, ap (λ (q : String → Option File). q n.source) cf) in
                    let kid : m.transaction_id ≡ n.transaction_id = ap id_of z ∙ ap id_of k in
                    (
                      n,
                      e,
                      record {
                        source = source;
                        read_from = read;
                        intended = ground (arith, eq_iff actual n.intended_sha256);
                        stored = ground (arith, eq_refl n.transaction_id);
                        state = ap (λ (q : Manifest). q.state) z;
                        same_prior = ap prior_of z ∙ ap prior_of k;
                        same_destination = ap destination_of z ∙ ap destination_of k;
                        same_id = kid;
                        same_backups = ap backups_of v ∙ (ap backups_of y ∙ cb);
                        files =
                            ap files_of v
                            ∙ (ap files_of y
                                ∙ (ap
                                      (λ (q : String → Option File).
                                        update q n.destination (
                                          some (by_root file.content (file_mode os n.destination))))
                                      cf
                                    ∙ ap
                                        (λ (q : File).
                                          update w.files n.destination
                                            (some (by_root q.content (file_mode os n.destination))))
                                        same_file));
                      },
                    ))
                  (λ _ _. tt))
