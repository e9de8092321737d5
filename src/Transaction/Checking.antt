-- ===== src/Transaction/Checking.antt =====
-- `verify`, `commit`, `status` and `expire` keep the invariant of the controller's store.
use lifeos_platform.Prelude.{
  ℕ, String, ◌≡◌, refl, Bool, false, not, Option, none, some, arith, List, [], ◌∷◌, ◌++◌, ltb, leb,
  if◌then◌else◌,
}
use lifeos_platform.Prelude.Exec.{Result, ok, err, pure, raise}
use lifeos_platform.Prelude.Post.{
  Post, Post-weaken, >>=-Post, guard-Post, gets-Post, pure-Post, raise-Post, if-Post,
}
use lifeos_platform.Transaction.World.{
  Platform, Check, not_dict, dict, TransactionState, Manifest, Evidence, Proof, World, Error,
  set_timer, set_proof, unbound_local, verification_failed,
}
use lifeos_platform.Transaction.Phases.{
  is_verifying, is_probation, is_settled, is_terminal, required, inspect, run_checks,
  settle_verification, verify, commit_verified, commit_before, commit, status, expire_before,
  expire,
}
use lifeos_platform.Transaction.Rules.{
  Store, store, Quiet, Quiet-pure, Quiet-if, Quiet-attempt, Quiet-dir, Quiet-now, Quiet-run,
  Quiet-effect, Quiet-raise, Quiet-gets, Quiet-sha256, Quiet-bind, Quiet-systemctl,
  Quiet-try_except, quietly,
}
use lifeos_platform.Transaction.Guarded.{IsGuarded}
use lifeos_platform.Transaction.Locks.{Holds, load-Holds, save-IsSaved}
use lifeos_platform.Transaction.Keeps.{Keeps, release-Keeps, rollback-Keeps}

Quiet-required : (o : Option String) → Quiet (required o)
Quiet-required none = Quiet-raise _
Quiet-required (some s) = Quiet-pure s

module _ (os : Platform) where
  Quiet-unknown :
      (last : Option Bool)
      → Quiet {A = List Evidence × Bool}
          (elim last [ none ↦ raise unbound_local | some b ↦ pure ([], b) ])
  Quiet-unknown none = Quiet-raise _
  Quiet-unknown (some b) = Quiet-pure _

  Quiet-inspect : (c : Check) (last : Option Bool) → Quiet (inspect os c last)
  unfolding inspect
  Quiet-inspect not_dict last = Quiet-raise _
  Quiet-inspect (dict none path expected unit) last = Quiet-raise _
  Quiet-inspect (dict (some type) path expected unit) last =
      Quiet-if _ _ _
        (Quiet-bind _ _ (Quiet-required path) λ p. Quiet-bind _ _ (Quiet-gets _) λ file.
          Quiet-bind _ _ (Quiet-sha256 os file)
            λ actual. Quiet-bind _ _ (Quiet-required expected) (λ e. Quiet-pure _))
        (Quiet-if _ _ _
          (Quiet-bind _ _ (Quiet-required unit)
            λ u. Quiet-bind _ _ (Quiet-run os (λ w. w) (λ w. refl)) (λ b. Quiet-pure _))
          (Quiet-unknown last))

  Quiet-run_checks :
      (cs : List Check) (last : Option Bool) (evidence : List Evidence)
      → Quiet (run_checks os cs last evidence)
  unfolding run_checks
  Quiet-run_checks [] last evidence = Quiet-pure _
  Quiet-run_checks (c ∷ cs) last evidence =
      Quiet-bind _ _ (Quiet-attempt _ (Quiet-inspect c last))
        (next (λ b found. Quiet-run_checks cs (some b) (evidence ++ found)))
    where
      next :
          ((b : Bool) (found : List Evidence)
            → Quiet (run_checks os cs (some b) (evidence ++ found)))
          → (outcome : Result Error (List Evidence × Bool))
          → Quiet (elim outcome [
            | err e ↦ pure (evidence, some e)
            | ok (found, passed) ↦
                if passed
                then run_checks os cs (some passed) (evidence ++ found)
                else pure (evidence ++ found, some verification_failed)
          ])
      next rest (err e) = Quiet-pure _
      next rest (ok (found, passed)) = Quiet-if _ _ _ (rest passed found) (Quiet-pure _)

verifying-is_unsettled :
    (s : TransactionState) → not (is_verifying s) ≡ false → is_settled s ≡ false
verifying-is_unsettled s h = ground arith

probation-is_unsettled :
    (s : TransactionState) → not (is_probation s) ≡ false → is_settled s ≡ false
probation-is_unsettled s h = ground arith

module _ (os : Platform) (frozen : String → Option Manifest) where
  abbrev Guarded : Store → Type 0
  Guarded = IsGuarded frozen

  settle_verification-Keeps :
      (id : String) (m : Manifest) (found : List Evidence × Option Error) (w : World)
      → is_settled m.state ≡ false
      → Holds os frozen id m (store w)
      → Post
          (λ _ t. Guarded (store t))
          (λ t. Guarded (store t))
          (settle_verification os id m found w)
  unfolding settle_verification
  settle_verification-Keeps id m (evidence, some e) w unsettled h =
      quietly os Guarded Guarded _ _ w (Quiet-dir os id) (λ s h. h) h.guarded
        λ _ w g.
          quietly os Guarded Guarded _ _ w (Quiet-effect os (set_proof id _) (λ w. refl)) (λ s h. h)
            g
            λ _ w g. >>=-Post _ _ _ (rollback-Keeps os frozen id _ w g) (λ _ w g. raise-Post e w g)
  settle_verification-Keeps id m (evidence, none) w unsettled h =
      let P = Holds os frozen id m in
      quietly os P Guarded _ _ w (Quiet-now os) (λ s h. h.guarded) h
        λ at w h.
          quietly os P Guarded _ _ w (Quiet-dir os id) (λ s h. h.guarded) h
            λ _ w h.
              quietly os P Guarded _ _ w (Quiet-effect os (set_proof id _) (λ w. refl))
                (λ s h. h.guarded) h
                λ _ w h.
                  >>=-Post _ _ _
                    (save-IsSaved os frozen id m _ w h unsettled (h.guarded.named id m h.at) refl)
                    λ _ w s. pure-Post _ w s.guarded

  pub verify-Keeps : (id : String) → Keeps os frozen (verify os id)
  unfolding verify
  verify-Keeps id w g = >>=-Post _ _ _ (load-Holds os frozen id w g) λ m w h.
      guard-Post _ _ _ w h.guarded λ v.
        quietly os (Holds os frozen id m) Guarded _ _ w (Quiet-run_checks os m.checks none [])
          (λ s h. h.guarded) h
          λ found w h. settle_verification-Keeps id m found w (verifying-is_unsettled m.state v) h

  commit_verified-Keeps :
      (id : String) (m : Manifest) (proof : Option Proof) (w : World)
      → is_settled m.state ≡ false
      → Holds os frozen id m (store w)
      → Post (λ _ t. Guarded (store t)) (λ t. Guarded (store t)) (commit_verified os id m proof w)
  unfolding commit_verified
  commit_verified-Keeps id m none w unsettled h = raise-Post _ w h.guarded
  commit_verified-Keeps id m (some proof) w unsettled h =
      let P = Holds os frozen id m in
      guard-Post _ _ _ w h.guarded λ _.
        quietly os P Guarded _ _ w (Quiet-systemctl os (set_timer m.timer false) (λ w. refl))
          (λ s h. h.guarded) h
          λ _ w h.
            quietly os P Guarded _ _ w (Quiet-now os) (λ s h. h.guarded) h
              λ at w h.
                >>=-Post _ _ _
                  (save-IsSaved os frozen id m _ w h unsettled (h.guarded.named id m h.at) refl)
                  λ saved w s. release-Keeps os frozen id _ saved refl w s

  commit_before-Keeps :
      (id : String) (m : Manifest) (deadline : Option ℕ) (w : World)
      → is_settled m.state ≡ false
      → Holds os frozen id m (store w)
      → Post (λ _ t. Guarded (store t)) (λ t. Guarded (store t)) (commit_before os id m deadline w)
  unfolding commit_before
  commit_before-Keeps id m none w unsettled h = raise-Post _ w h.guarded
  commit_before-Keeps id m (some deadline) w unsettled h =
      let P = Holds os frozen id m in
      quietly os P Guarded _ _ w (Quiet-now os) (λ s h. h.guarded) h
        λ t w h.
          if-Post (leb deadline t) _ _ w
            (λ _.
              >>=-Post _ _ _ (rollback-Keeps os frozen id _ w h.guarded)
                (λ _ w g. raise-Post _ w g))
            (λ _.
              quietly os P Guarded _ _ w (Quiet-dir os id) (λ s h. h.guarded) h
                λ _ w h.
                  quietly os P Guarded _ _ w
                    (Quiet-try_except _ _ (Quiet-effect os (λ w. w) (λ w. refl))
                      (λ e. Quiet-raise _))
                    (λ s h. h.guarded) h
                    λ _ w h. gets-Post _ _ w (commit_verified-Keeps id m _ w unsettled h))

  pub commit-Keeps : (id : String) → Keeps os frozen (commit os id)
  unfolding commit
  commit-Keeps id w g = >>=-Post _ _ _ (load-Holds os frozen id w g) λ m w h.
      guard-Post _ _ _ w h.guarded
        λ p. commit_before-Keeps id m m.deadline w (probation-is_unsettled m.state p) h

  pub status-Keeps : (id : String) → Keeps os frozen (status os id)
  unfolding status
  status-Keeps id w g = Post-weaken (load-Holds os frozen id w g) (λ _ t h. h.guarded) (λ t h. h)

  expire_before-Keeps :
      (id : String) (m : Manifest) (deadline : Option ℕ)
      → Keeps os frozen (expire_before os id m deadline)
  unfolding expire_before
  expire_before-Keeps id m none w g = rollback-Keeps os frozen id _ w g
  expire_before-Keeps id m (some deadline) w g =
      quietly os Guarded Guarded _ _ w (Quiet-now os) (λ s h. h) g
        λ t w g.
          if-Post (ltb t deadline) _ _ w (λ _. pure-Post m w g)
            (λ _. rollback-Keeps os frozen id _ w g)

  pub expire-Keeps : (id : String) → Keeps os frozen (expire os id)
  unfolding expire
  expire-Keeps id w g = >>=-Post _ _ _ (load-Holds os frozen id w g) λ m w h.
      if-Post (is_terminal m.state) _ _ w (λ _. pure-Post m w h.guarded)
        (λ _. expire_before-Keeps id m m.deadline w h.guarded)
