-- ===== src/Transaction/Locks.antt =====
-- Every method of the controller keeps the invariant of its store, on every path, whatever the
-- system answers.
use mathlib.Core.Path.{subst}
use lifeos_platform.Prelude.{String, ◌≡◌, refl, sym, true, false, Option, none, some}
use lifeos_platform.Prelude.Post.{Post, >>=-Post, gets-Post, pure-Post}
use lifeos_platform.Transaction.World.{Platform, Manifest, World}
use lifeos_platform.Transaction.Files.{found_manifest, load, save}
use lifeos_platform.Transaction.Phases.{is_settled}
use lifeos_platform.Transaction.Rules.{
  Store, store, Quiet-dir, Quiet-now, Quiet-effect, Quiet-raise, Quiet-try_except, quietly,
  effect-Post,
}
use lifeos_platform.Transaction.Guarded.{
  IsGuarded, IsFree, with_manifest, with_manifest_at, save-IsGuarded, settle-IsFree,
}

module _ (os : Platform) (frozen : String → Option Manifest) where
  abbrev Guarded : Store → Type 0
  Guarded = IsGuarded frozen

  -- The manifest that a method has loaded, while nobody else changes it.
  pub record Holds (id : String) (m : Manifest) (s : Store) : Type 0 where
    pub guarded : IsGuarded frozen s
    pub at : s.manifests id ≡ some m

  -- What a save of `m` leaves.
  pub record IsSaved (id : String) (m saved : Manifest) (s : Store) : Type 0 where
    pub guarded : IsGuarded frozen s
    pub at : s.manifests id ≡ some saved
    pub same_id : saved.transaction_id ≡ id
    pub same_lock : saved.resource_lock ≡ m.resource_lock
    pub same_state : saved.state ≡ m.state
    pub released : is_settled m.state ≡ true → IsFree m.resource_lock s

  found-Holds :
      (id : String) (found : Option Manifest) (w : World)
      → Guarded (store w)
      → w.manifests id ≡ found
      → Post (λ m t. Holds id m (store t)) (λ t. Guarded (store t)) (found_manifest os found w)
  unfolding found_manifest
  found-Holds id none w g e = record { holds = g }
  found-Holds id (some m) w g e = record { holds = record { guarded = g; at = e } }

  pub load-Holds :
      (id : String) (w : World)
      → Guarded (store w)
      → Post (λ m t. Holds id m (store t)) (λ t. Guarded (store t)) (load os id w)
  unfolding load
  load-Holds id w g =
      quietly os Guarded Guarded _ _ w (Quiet-dir os id) (λ s h. h) g
        λ _ u h.
          quietly os Guarded Guarded _ _ u
            (Quiet-try_except _ _ (Quiet-effect os (λ w. w) (λ w. refl)) (λ e. Quiet-raise _))
            (λ s h. h) h λ _ v k. gets-Post _ _ v (found-Holds id (v.manifests id) v k refl)

  -- Saving a manifest over an open one.
  pub save-IsSaved :
      (id : String) (m m' : Manifest) (w : World)
      → Holds id m (store w)
      → is_settled m.state ≡ false
      → m'.transaction_id ≡ id
      → m'.resource_lock ≡ m.resource_lock
      → Post (λ saved t. IsSaved id m' saved (store t)) (λ t. Guarded (store t)) (save os m' w)
  unfolding save
  save-IsSaved id m m' w h unsettled i l =
      quietly os (Holds id m) Guarded _ _ w (Quiet-now os) (λ s h. h.guarded) h
        λ time u h.
          quietly os (Holds id m) Guarded _ _ u (Quiet-dir os _) (λ s h. h.guarded) h
            λ _ v h.
              let saved : Manifest = record m' { updated_at = time } in
              let g = save-IsGuarded frozen (store v) id m saved h.guarded h.at unsettled i l in
              let after : IsSaved id m' saved (with_manifest saved (store v)) = record {
                guarded = g;
                at = with_manifest_at (store v) id saved i;
                same_id = i;
                same_lock = refl;
                same_state = refl;
                released = λ done.
                    subst (λ k. IsFree k (with_manifest saved (store v))) (sym l)
                      (settle-IsFree frozen (store v) id m saved h.guarded h.at unsettled i done);
              } in
              >>=-Post _ _ _ (effect-Post os _ v h.guarded g after) (λ _ t k. pure-Post saved t k)
