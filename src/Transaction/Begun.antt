-- ===== src/Transaction/Begun.antt =====
-- What a successful `begin` has done.
use mathlib.Core.Path.{subst}
use lifeos_platform.Prelude.{
  String, ◌≡◌, ◌∙◌, sym, refl, ap, Bool, true, false, Option, none, some, arith, eq_refl, [], ◌∷◌,
}
use lifeos_platform.Prelude.Exec.{ok}
use lifeos_platform.Prelude.Post.{
  Post_ok, Post-weaken, try_except-Post, gets-Post, raise-Post, >>=-Post, guard-Post, pure-Post,
}
use lifeos_platform.Transaction.World.{
  Platform, File, Prior, absent, present, Manifest, World, armed, called, set_timer, set_lock,
  set_backup,
}
use lifeos_platform.Transaction.Files.{is_allowlisted}
use lifeos_platform.Transaction.Begin.{
  Proposal, destination_of, lock_of, validate, acquire_lock, back_up, prepare, begin_locked, begin,
  remove_tree,
}
use lifeos_platform.Transaction.Exact.{
  Returns, anything, now_exact, dir_exact, save_exact, sha256_exact, systemctl_exact, effect_exact,
}
use lifeos_platform.Transaction.Applied.{files_of, backups_of, id_of, prior_of}

-- The manifest's record of what stood at the destination, and the copy of it.
abbrev pub Recorded : Platform → Option File → Prior → Option File → Type 0
Recorded os none prior backup = prior ≡ absent
Recorded os (some f) prior backup =
    (prior ≡ present (os.digest f.content) f.mode) × (backup ≡ some f) × (f.regular ≡ true)

pub record IsBegun (os : Platform) (id : String) (p : Proposal) (w : World) (m : Manifest)
    (t : World) : Type 0 where
  pub allowed : is_allowlisted os (destination_of p) ≡ true
  pub stored : t.manifests id ≡ some m
  pub state : m.state ≡ armed
  pub same_id : m.transaction_id ≡ id
  pub same_destination : m.destination ≡ destination_of p
  pub watched : t.timers m.timer ≡ true
  pub taken : t.locks (lock_of os (destination_of p)) ≡ true
  pub untaken : w.locks (lock_of os (destination_of p)) ≡ false
  pub same_files : t.files ≡ w.files
  pub recorded : Recorded os (w.files (destination_of p)) m.prior (t.backups id)

abbrev timers_of : World → String → Bool
timers_of w = w.timers

abbrev locks_of : World → String → Bool
locks_of w = w.locks

-- Files, locks and timers that a part of `begin` leaves alone.
record IsSame (w t : World) : Type 0 where
  files : t.files ≡ w.files
  locks : t.locks ≡ w.locks
  timers : t.timers ≡ w.timers

module _ (os : Platform) where
  validate_exact :
      (p : Proposal) (w : World)
      → Returns
          (λ _ t. (is_allowlisted os (destination_of p) ≡ true) × (t ≡ called w))
          (validate os p w)
  unfolding validate
  validate_exact p w = guard-Post _ _ _ w tt λ _. guard-Post _ _ _ w tt λ _.
      guard-Post _ _ _ w tt λ _. gets-Post _ _ w (
        guard-Post _ _ _ w tt λ _. guard-Post _ _ _ w tt λ listed.
          >>=-Post _ _ _ (sha256_exact os _ w) λ d t (f, g, h, e). guard-Post _ _ _ t tt λ _.
            guard-Post _ _ _ t tt λ _.
              guard-Post _ _ _ t tt λ _. guard-Post _ _ _ t tt λ _. pure-Post d t (ground arith, e))

  acquire_exact :
      (lock : String) (w : World)
      → Returns
          (λ _ t.
            (w.locks lock ≡ false)
            × (t.locks lock ≡ true)
            × (t.files ≡ w.files)
            × (t.backups ≡ w.backups))
          (acquire_lock os lock w)
  unfolding acquire_lock
  acquire_exact lock w = >>=-Post _ _ _ (effect_exact os (λ w. w) w) λ _ a e.
      >>=-Post _ _ _ (effect_exact os (λ w. w) a) λ _ b f. gets-Post _ _ b (
        guard-Post _ _ _ b tt λ free.
          >>=-Post _ _ _ (effect_exact os (set_lock lock true) b) λ _ c g.
            Post-weaken {R = λ _. Unit {0}} (effect_exact os (λ w. w) c)
              (λ _ t h. (
                ap (λ (q : World). q.locks lock) (sym (f ∙ ap called e)) ∙ free,
                ground (arith, eq_refl lock),
                ap files_of h ∙ (ap files_of g ∙ (ap files_of f ∙ ap files_of e)),
                ap backups_of h ∙ (ap backups_of g ∙ (ap backups_of f ∙ ap backups_of e)),
              ))
              (λ _ _. tt))

  back_up_exact :
      (id : String) (existing : Option File) (w : World)
      → Returns
          (λ prior t. IsSame w t × Recorded os existing prior (t.backups id))
          (back_up os id existing w)
  unfolding back_up
  back_up_exact id none w =
      pure-Post _ w (record { files = refl; locks = refl; timers = refl }, refl)
  back_up_exact id (some f) w = guard-Post _ _ _ w tt λ regular.
      >>=-Post _ _ _ (effect_exact os (set_backup id f) w) λ _ a e. gets-Post _ _ a (
        >>=-Post _ _ _ (sha256_exact os (a.backups id) a) λ d b (g, h, k, l).
          >>=-Post _ _ _ (effect_exact os (λ w. w) b) λ _ t x. pure-Post _ t (
            let backed : a.backups id ≡ some f =
              ap (λ (q : World). q.backups id) e ∙ ground (arith, eq_refl id) in
            let same : g ≡ f = cc in
            (
              record {
                files = ap files_of x ∙ (ap files_of l ∙ ap files_of e);
                locks = ap locks_of x ∙ (ap locks_of l ∙ ap locks_of e);
                timers = ap timers_of x ∙ (ap timers_of l ∙ ap timers_of e);
              },
              (
                ap (λ (q : String). present q f.mode)
                    (k ∙ ap (λ (q : File). os.digest q.content) same),
                ap (λ (q : World). q.backups id) (x ∙ ap called l) ∙ backed,
                ground arith,
              ),
            )))

  Recorded-later :
      (existing other : Option File) (prior prior' : Prior) (b b' : Option File)
      → existing ≡ other
      → prior ≡ prior'
      → b ≡ b'
      → Recorded os existing prior b
      → Recorded os other prior' b'
  Recorded-later existing other prior prior' b b' e f g r =
      subst (λ k. Recorded os other prior' k) g
        (subst (λ q. Recorded os other q b) f (subst (λ o. Recorded os o prior b) e r))

  prepare_exact :
      (id : String) (p : Proposal) (expected : String) (w : World)
      → Returns
          (λ m t.
            (t.manifests id ≡ some m)
            × (m.state ≡ armed)
            × (m.transaction_id ≡ id)
            × (m.destination ≡ destination_of p)
            × (t.timers m.timer ≡ true)
            × (t.files ≡ w.files)
            × (t.locks ≡ w.locks)
            × Recorded os (w.files (destination_of p)) m.prior (t.backups id))
          (prepare os id p expected w)
  unfolding prepare
  prepare_exact id p expected w = >>=-Post _ _ _ (effect_exact os _ w) λ _ a e.
      >>=-Post _ _ _ (effect_exact os (λ w. w) a) λ _ b f. gets-Post _ _ b (
        >>=-Post _ _ _ (back_up_exact id (b.files (destination_of p)) b) λ prior c (same, recorded).
          >>=-Post _ _ _ (now_exact os c) λ created d (g, h).
            >>=-Post _ _ _ (save_exact os _ d) λ m u (k, l).
              >>=-Post _ _ _ (systemctl_exact os (set_timer m.timer true) u) λ _ v x.
                >>=-Post _ _ _ (now_exact os v) λ at y (z, q).
                  Post-weaken {R = λ _. Unit {0}}
                    (save_exact os (record m { state = armed; armed_at = at ∷ [] }) y)
                    (λ n t (r, s).
                      let fb : b.files ≡ w.files = ap files_of f ∙ ap files_of e in
                      let lb : b.locks ≡ w.locks = ap locks_of f ∙ ap locks_of e in
                      let named : n.transaction_id ≡ id = ap id_of r ∙ ap id_of k in
                      let timer : n.timer ≡ m.timer = ap (λ (o : Manifest). o.timer) r in
                      (
                        ground (arith, eq_refl id),
                        ap (λ (o : Manifest). o.state) r,
                        named,
                        ap (λ (o : Manifest). o.destination) r
                            ∙ ap (λ (o : Manifest). o.destination) k,
                        ap (λ (o : World). o.timers n.timer) s
                            ∙ (ap (λ (o : World). o.timers n.timer) q
                                ∙ (ap (λ (o : String). v.timers o) timer
                                    ∙ (ap (λ (o : World). o.timers m.timer) x
                                        ∙ ground (arith, eq_refl m.timer)))),
                        ap files_of s
                            ∙ (ap files_of q
                                ∙ (ap files_of x
                                    ∙ (ap files_of l ∙ (ap files_of h ∙ (same.files ∙ fb))))),
                        ap locks_of s
                            ∙ (ap locks_of q
                                ∙ (ap locks_of x
                                    ∙ (ap locks_of l ∙ (ap locks_of h ∙ (same.locks ∙ lb))))),
                        Recorded-later _ _ _ _ _ _
                            (ap (λ (o : String → Option File). o (destination_of p)) fb)
                            (sym (ap prior_of r ∙ ap prior_of k))
                            (sym (
                              ap (λ (o : World). o.backups id) s
                              ∙ (ap (λ (o : World). o.backups id) q
                                  ∙ (ap (λ (o : World). o.backups id) x
                                      ∙ (ap (λ (o : World). o.backups id) l
                                          ∙ ap (λ (o : World). o.backups id) h)))))
                            recorded,
                      ))
                    (λ _ _. tt))

  begin_exact :
      (id : String) (p : Proposal) (w : World)
      → Returns (λ m t. IsBegun os id p w m t) (begin os id p w)
  unfolding begin begin_locked
  begin_exact id p w = >>=-Post _ _ _ (dir_exact os id w) λ _ a e. gets-Post _ _ a (
      guard-Post _ _ _ a tt λ _. >>=-Post _ _ _ (validate_exact p a) λ expected b (allowed, f).
        >>=-Post _ _ _ (acquire_exact _ b) λ _ c (untaken, taken, same, backups).
          try_except-Post {R' = λ _. Unit {0}} _ _ c
            (Post-weaken {R = λ _. Unit {0}} (prepare_exact id p expected c)
              (λ m t (stored, state, named, destination, watched, files, locks, recorded).
                let fb : c.files ≡ w.files = same ∙ (ap files_of f ∙ ap files_of e) in
                record {
                  allowed = allowed;
                  stored = stored;
                  state = state;
                  same_id = named;
                  same_destination = destination;
                  watched = watched;
                  taken =
                      ap (λ (o : String → Bool). o (lock_of os (destination_of p))) locks ∙ taken;
                  untaken =
                      ap (λ (o : World). o.locks (lock_of os (destination_of p)))
                        (sym (f ∙ ap called e))
                      ∙ untaken;
                  same_files = files ∙ fb;
                  recorded =
                      Recorded-later _ _ _ _ _ _
                        (ap (λ (o : String → Option File). o (destination_of p)) fb) refl refl
                        recorded;
                })
              (λ _ _. tt))
            λ x t _.
              >>=-Post {Q' = λ _ _. Unit {0}} _ _ _ (anything (remove_tree os id) t)
                λ _ t _. >>=-Post _ _ _ (effect_exact os _ t) (λ _ t _. raise-Post x t tt))

-- A successful `begin` has found the destination on the allow-list and its lock free. It leaves the
-- manifest stored as ARMED, the watchdog's timer enabled, the lock taken, every file as it was, and
-- on record what stood at the destination: nothing, or a regular file, its digest, its mode and a
-- copy of it.
pub begin-IsBegun :
    (os : Platform) (id : String) (p : Proposal) (w : World) (m : Manifest) (t : World)
    → begin os id p w ≡ (ok m, t)
    → IsBegun os id p w m t
begin-IsBegun os id p w m t h = Post_ok {R = λ _. Unit {0}} (begin_exact os id p w) h
