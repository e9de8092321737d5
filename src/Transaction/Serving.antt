-- ===== src/Transaction/Serving.antt =====
-- Requests to the controller, one after another, by whoever sends them: the broker, the verifier
-- and the watchdog. A request that raises leaves the world as it left it.
use lifeos_platform.Prelude.{ℕ, String, ◌≡◌, true, false, Option, none, some, arith, List, [], ◌∷◌}
use lifeos_platform.Prelude.Exec.{Result, ok, err}
use lifeos_platform.Prelude.Post.{Post}
use lifeos_platform.Transaction.World.{Platform, Manifest, World, Error}
use lifeos_platform.Transaction.Begin.{Proposal, begin}
use lifeos_platform.Transaction.Phases.{is_settled, apply, verify, commit, rollback, status, expire}
use lifeos_platform.Transaction.Rules.{store}
use lifeos_platform.Transaction.Guarded.{IsGuarded}
use lifeos_platform.Transaction.Keeps.{rollback-Keeps, apply-Keeps}
use lifeos_platform.Transaction.Checking.{verify-Keeps, commit-Keeps, status-Keeps, expire-Keeps}
use lifeos_platform.Transaction.Creating.{begin-Keeps}

pub data Request : Type 0 where
  begin_request : String → Proposal → Request
  apply_request verify_request commit_request status_request expire_request : String → Request
  rollback_request : String → String → Request

-- Nothing on disk yet, but whatever files there are.
abbrev pub IsFresh : World → Type 0
IsFresh w =
    ((j : String) → w.manifests j ≡ none)
    × ((j : String) → w.txdirs j ≡ false)
    × ((l : String) → w.locks l ≡ false)

module _ (os : Platform) where
  unfoldable pub handle : World → Request → World
  handle w (begin_request id p) = (begin os id p w).1
  handle w (apply_request id) = (apply os id w).1
  handle w (verify_request id) = (verify os id w).1
  handle w (commit_request id) = (commit os id w).1
  handle w (status_request id) = (status os id w).1
  handle w (expire_request id) = (expire os id w).1
  handle w (rollback_request id reason) = (rollback os id reason w).1

  unfoldable pub serve : World → List Request → World
  serve w [] = w
  serve w (r ∷ rs) = serve (handle w r) rs

-- An invariant holds of the world that a method leaves, however it ends.
either_way :
    {A : Type 0} (P : World → Type 0) (p : Result Error A × World) → Post (λ _ t. P t) P p → P p.1
either_way P (ok a, t) h = h.holds
either_way P (err e, t) h = h.holds

module _ (os : Platform) (removed : (n : ℕ) → os.tree_removed n ≡ true)
    (frozen : String → Option Manifest) where
  handle-IsGuarded :
      (w : World) (r : Request)
      → IsGuarded frozen (store w)
      → IsGuarded frozen (store (handle os w r))
  unfolding handle
  handle-IsGuarded w (begin_request id p) g =
      either_way _ _ (begin-Keeps os removed frozen id p w g)
  handle-IsGuarded w (apply_request id) g = either_way _ _ (apply-Keeps os frozen id w g)
  handle-IsGuarded w (verify_request id) g = either_way _ _ (verify-Keeps os frozen id w g)
  handle-IsGuarded w (commit_request id) g = either_way _ _ (commit-Keeps os frozen id w g)
  handle-IsGuarded w (status_request id) g = either_way _ _ (status-Keeps os frozen id w g)
  handle-IsGuarded w (expire_request id) g = either_way _ _ (expire-Keeps os frozen id w g)
  handle-IsGuarded w (rollback_request id reason) g =
      either_way _ _ (rollback-Keeps os frozen id reason w g)

  pub serve-IsGuarded :
      (w : World) (rs : List Request)
      → IsGuarded frozen (store w)
      → IsGuarded frozen (store (serve os w rs))
  unfolding serve
  serve-IsGuarded w [] g = g
  serve-IsGuarded w (r ∷ rs) g = serve-IsGuarded (handle os w r) rs (handle-IsGuarded w r g)

pub fresh-IsGuarded : (w : World) → IsFresh w → IsGuarded (λ _. none) (store w)
fresh-IsGuarded w (no_manifest, no_dir, no_lock) = record {
  named = λ j n q. ground (arith, no_manifest j);
  housed = λ j n q. ground (arith, no_manifest j);
  locked = λ j n q u. ground (arith, no_manifest j);
  sole = λ j k n p q r u v l. ground (arith, no_manifest j);
  kept = λ j n q. cc;
}

-- From a fresh start, after any requests and whatever the system answers, as long as
-- `shutil.rmtree` removes what it is given: each open transaction (neither COMMITTED nor
-- ROLLED_BACK) holds its resource lock, and no two open transactions hold the same one.
pub serve-exclusive :
    (os : Platform) (w : World) (rs : List Request)
    → ((n : ℕ) → os.tree_removed n ≡ true)
    → IsFresh w
    → (j k : String) (n p : Manifest) → (serve os w rs).manifests j ≡ some n
    → (serve os w rs).manifests k ≡ some p
    → is_settled n.state ≡ false
    → is_settled p.state ≡ false
    → ((serve os w rs).locks n.resource_lock ≡ true) × (n.resource_lock ≡ p.resource_lock → j ≡ k)
serve-exclusive os w rs removed fresh j k n p q r u v =
    let g = serve-IsGuarded os removed (λ _. none) w rs (fresh-IsGuarded w fresh) in
    (g.locked j n q u, g.sole j k n p q r u v)

frozen_now : World → String → Option Manifest
frozen_now w j = elim (w.manifests j) [
  | none ↦ none
  | some n ↦ elim (is_settled n.state) [ true ↦ some n | false ↦ none ]
]

refreeze : (w : World) → IsGuarded (λ _. none) (store w) → IsGuarded (frozen_now w) (store w)
unfolding frozen_now
refreeze w g = record {
  named = g.named;
  housed = g.housed;
  locked = g.locked;
  sole = g.sole;
  kept = λ j n q. ground arith;
}

-- From a fresh start, with `rs` served first: a manifest that is COMMITTED or ROLLED_BACK then is
-- unchanged after any further requests `more`, as long as `shutil.rmtree` removes what it is given.
pub serve-settled :
    (os : Platform) (w : World) (rs more : List Request)
    → ((n : ℕ) → os.tree_removed n ≡ true)
    → IsFresh w
    → (id : String) (m : Manifest) → (serve os w rs).manifests id ≡ some m
    → is_settled m.state ≡ true
    → (serve os (serve os w rs) more).manifests id ≡ some m
unfolding frozen_now
serve-settled os w rs more removed fresh id m at settled =
    let v = serve os w rs in
    let g = refreeze v (serve-IsGuarded os removed (λ _. none) w rs (fresh-IsGuarded w fresh)) in
    ((serve-IsGuarded os removed (frozen_now v) v more g).kept id m (ground arith)).0
