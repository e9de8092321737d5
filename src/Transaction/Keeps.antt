-- ===== src/Transaction/Keeps.antt =====
-- Every method of the controller keeps the invariant of its store, on every path, whatever the
-- system answers.
use lifeos_platform.Prelude.{String, ◌≡◌, refl, ap, true, false, not, Option, arith}
use lifeos_platform.Prelude.Exec.{pure, ◌>>=◌}
use lifeos_platform.Prelude.Post.{Post, Post-weaken, >>=-Post, guard-Post, gets-Post, pure-Post}
use lifeos_platform.Transaction.World.{
  Platform, Prior, absent, present, Manifest, World, Method, rolling_back, set_timer, set_lock,
  effect, TransactionState,
}
use lifeos_platform.Transaction.Phases.{is_armed, is_settled, restore, rollback, apply}
use lifeos_platform.Transaction.Rules.{
  store, Quiet, Quiet-dir, Quiet-now, Quiet-run, Quiet-effect, Quiet-raise_if, Quiet-gets,
  Quiet-sha256, Quiet-bind, Quiet-replace_file, quietly, effect-Post,
}
use lifeos_platform.Transaction.Guarded.{IsGuarded, unlock-IsGuarded}
use lifeos_platform.Transaction.Locks.{Holds, IsSaved, load-Holds, save-IsSaved}

module _ (os : Platform) where
  pub Quiet-restore : (m : Manifest) (p : Prior) → Quiet (restore os m p)
  unfolding restore
  Quiet-restore m absent = Quiet-effect os _ (λ w. refl)
  Quiet-restore m (present digest mode) = Quiet-bind _ _ (Quiet-dir os _) λ _.
      Quiet-bind _ _ (Quiet-gets _) λ backup.
        Quiet-bind _ _ (Quiet-sha256 os backup)
          λ _. Quiet-bind _ _ (Quiet-raise_if _ _) (λ _. Quiet-replace_file os _ _ _)

armed-is_unsettled : (s : TransactionState) → not (is_armed s) ≡ false → is_settled s ≡ false
armed-is_unsettled s h = ground arith

module _ (os : Platform) (frozen : String → Option Manifest) where
  abbrev pub Keeps : {A : Type 0} → Method A → Type 0
  Keeps m =
      (w : World)
      → IsGuarded frozen (store w)
      → Post (λ _ t. IsGuarded frozen (store t)) (λ t. IsGuarded frozen (store t)) (m w)

  -- Releasing the lock of a manifest that was just saved as settled.
  pub release-Keeps :
      (id : String) (m saved : Manifest)
      → is_settled m.state ≡ true
      → (w : World) → IsSaved os frozen id m saved (store w)
      → Post
          (λ (_ : Manifest) t. IsGuarded frozen (store t))
          (λ t. IsGuarded frozen (store t))
          ((effect os (set_lock m.resource_lock false) >>= λ _. pure saved) w)
  release-Keeps id m saved done w s =
      let g = unlock-IsGuarded frozen (store w) m.resource_lock s.guarded (s.released done) in
      >>=-Post _ _ _ (effect-Post os _ w s.guarded g g) (λ _ t k. pure-Post saved t k)

  pub rollback-Keeps : (id reason : String) → Keeps (rollback os id reason)
  unfolding rollback
  rollback-Keeps id reason w g = >>=-Post _ _ _ (load-Holds os frozen id w g) λ m w h.
      guard-Post _ _ _ w h.guarded λ unsettled.
        >>=-Post _ _ _
          (save-IsSaved os frozen id m (record m { state = rolling_back }) w h unsettled
            (h.guarded.named id m h.at) refl)
          λ r w s.
            let P = Holds os frozen id r in
            let held : P (store w) = record { guarded = s.guarded; at = s.at } in
            quietly os P (IsGuarded frozen) _ _ w (Quiet-restore os r _) (λ s h. h.guarded) held
              λ _ w h.
                quietly os P (IsGuarded frozen) _ _ w (Quiet-now os) (λ s h. h.guarded) h
                  λ at w h.
                    quietly os P (IsGuarded frozen) _ _ w
                      (Quiet-run os (set_timer r.timer false) (λ w. refl)) (λ s h. h.guarded) h
                      λ disarmed w h.
                        >>=-Post _ _ _
                          (save-IsSaved os frozen id r _ w h (ap is_settled s.same_state) s.same_id
                            refl)
                          λ saved w k. release-Keeps id _ saved refl w k

  pub apply-Keeps : (id : String) → Keeps (apply os id)
  unfolding apply
  apply-Keeps id w g = >>=-Post _ _ _ (load-Holds os frozen id w g) λ m w h.
      guard-Post _ _ _ w h.guarded λ is_armed. gets-Post _ _ w (
        quietly os (Holds os frozen id m) (IsGuarded frozen) _ _ w (Quiet-sha256 os _)
          (λ s h. h.guarded) h
          λ actual w h. guard-Post _ _ _ w h.guarded λ _.
            >>=-Post _ _ _
              (save-IsSaved os frozen id m _ w h (armed-is_unsettled m.state is_armed)
                (h.guarded.named id m h.at) refl)
              λ r w s.
                quietly os (Holds os frozen id r) (IsGuarded frozen) _ _ w
                  (Quiet-replace_file os _ _ _) (λ s h. h.guarded)
                  (record { guarded = s.guarded; at = s.at })
                  λ _ w h.
                    Post-weaken
                      (save-IsSaved os frozen id r _ w h (ap is_settled s.same_state) s.same_id
                        refl)
                      (λ _ t k. k.guarded) (λ t k. k))
