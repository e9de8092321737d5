-- ===== src/Transaction/Undone.antt =====
-- What a successful `rollback` has done.
use mathlib.Core.Path.{subst}
use lifeos_platform.Prelude.{
  String, ◌≡◌, ◌∙◌, sym, refl, ap, Bool, true, false, Option, none, some, arith, eq_refl, eq_iff,
}
use lifeos_platform.Prelude.Keyed.{update}
use lifeos_platform.Prelude.Post.{Post-weaken, gets-Post, >>=-Post, guard-Post, pure-Post}
use lifeos_platform.Transaction.World.{
  Platform, File, Prior, absent, present, Manifest, World, rolling_back, rolled_back, called,
  set_timer, set_lock,
}
use lifeos_platform.Transaction.Phases.{is_settled, restore, rollback}
use lifeos_platform.Transaction.Exact.{
  Returns, load_exact, now_exact, dir_exact, save_exact, sha256_exact, replace_file_exact,
  run_exact, ran, effect_exact,
}
use lifeos_platform.Transaction.Applied.{by_root, files_of, backups_of, id_of}

-- The files after the destination was put back to what the manifest says of it.
abbrev pub Restored :
    (os : Platform) → Prior → String → String → World → (String → Option File) → Type 0
Restored os absent id destination w files = files ≡ update w.files destination none
Restored os (present digest mode) id destination w files =
    (backup : File) × (w.backups id ≡ some backup)
    × (os.digest backup.content ≡ digest)
    × (files ≡ update w.files destination (some (by_root backup.content mode)))

pub record IsRolledBack (os : Platform) (n : Manifest) (w : World) (m : Manifest) (t : World)
    : Type 0 where
  pub unsettled : is_settled n.state ≡ false
  pub stored : t.manifests n.transaction_id ≡ some m
  pub state : m.state ≡ rolled_back
  pub unlocked : t.locks n.resource_lock ≡ false
  pub files : Restored os n.prior n.transaction_id n.destination w t.files

module _ (os : Platform) where
  restore_exact :
      (n : Manifest) (p : Prior) (w : World)
      → Returns (λ _ t. Restored os p n.transaction_id n.destination w t.files) (restore os n p w)
  unfolding restore
  restore_exact n absent w =
      Post-weaken {R = λ _. Unit {0}} (effect_exact os _ w) (λ _ t e. ap files_of e) (λ _ _. tt)
  restore_exact n (present digest mode) w =
      >>=-Post _ _ _ (dir_exact os n.transaction_id w) λ _ a e. gets-Post _ _ a (
        >>=-Post _ _ _ (sha256_exact os (a.backups n.transaction_id) a) λ actual b (f, g, d, h).
          guard-Post _ _ _ b tt λ same.
            Post-weaken {R = λ _. Unit {0}}
              (replace_file_exact os (λ w. w.backups n.transaction_id) n.destination mode b)
              (λ _ t (file, count, x, y).
                let bb : b.backups ≡ w.backups = ap backups_of h ∙ ap backups_of e in
                let bf : b.files ≡ w.files = ap files_of h ∙ ap files_of e in
                let read : w.backups n.transaction_id ≡ some f =
                  ap (λ (q : World). q.backups n.transaction_id) (sym e) ∙ g in
                let same_file : file ≡ f =
                  cc (x, read, ap (λ (q : String → Option File). q n.transaction_id) bb) in
                (
                  f,
                  read,
                  ground (arith, eq_iff actual digest),
                  ap files_of y
                      ∙ (ap
                            (λ (q : String → Option File).
                              update q n.destination (some (by_root file.content mode)))
                            bf
                          ∙ ap
                              (λ (q : File).
                                update w.files n.destination (some (by_root q.content mode)))
                              same_file),
                ))
              (λ _ _. tt))

  -- What was restored does not depend on the bookkeeping before and after it.
  Restored-between :
      (p : Prior) (id destination : String) (v w : World) (f g : String → Option File)
      → v.files ≡ w.files
      → v.backups ≡ w.backups
      → f ≡ g
      → Restored os p id destination v f
      → Restored os p id destination w g
  Restored-between absent id destination v w f g e b h r =
      sym h ∙ (r ∙ ap (λ (q : String → Option File). update q destination none) e)
  Restored-between (present digest mode) id destination v w f g e b h (file, x, y, z) = (
    file,
    ap (λ (q : String → Option File). q id) (sym b) ∙ x,
    y,
    sym h
        ∙ (z
            ∙ ap
                (λ (q : String → Option File).
                  update q destination (some (by_root file.content mode)))
                e),
  )

  ran_files :
      (timer : String) (b : Bool) (w : World) → (ran (set_timer timer false) b w).files ≡ w.files
  ran_files timer true w = refl
  ran_files timer false w = refl

  pub rollback_exact :
      (id reason : String) (w : World)
      → Returns
          (λ m t. (n : Manifest) × (w.manifests id ≡ some n) × IsRolledBack os n w m t)
          (rollback os id reason w)
  unfolding rollback
  rollback_exact id reason w = >>=-Post _ _ _ (load_exact os id w) λ n a (e, f).
      guard-Post _ _ _ a tt λ unsettled.
        >>=-Post _ _ _ (save_exact os (record n { state = rolling_back }) a) λ r b (g, h).
          >>=-Post _ _ _ (restore_exact r r.prior b) λ _ c restored.
            >>=-Post _ _ _ (now_exact os c) λ at d (k, l).
              >>=-Post _ _ _ (run_exact os (set_timer r.timer false) d) λ disarmed u x.
                >>=-Post _ _ _ (save_exact os _ u) λ m v (y, z).
                  >>=-Post _ _ _ (effect_exact os (set_lock r.resource_lock false) v) λ _ t q.
                    pure-Post m t (
                      n,
                      e,
                      record {
                        unsettled = unsettled;
                        stored = ground (arith, eq_refl n.transaction_id, ap id_of y, ap id_of g);
                        state = ap (λ (q : Manifest). q.state) y;
                        unlocked = ground (arith, eq_refl n.resource_lock);
                        files =
                            Restored-between n.prior n.transaction_id n.destination b w c.files
                              t.files (ap files_of h ∙ ap files_of f)
                              (ap backups_of h ∙ ap backups_of f)
                              (sym (
                                ap files_of q
                                ∙ (ap files_of z
                                    ∙ (ap files_of x
                                        ∙ (ran_files r.timer disarmed (called d)
                                            ∙ ap files_of l)))))
                              (subst
                                (λ (r : Manifest).
                                  Restored os r.prior r.transaction_id r.destination b c.files)
                                g restored);
                      },
                    )
