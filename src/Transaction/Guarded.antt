-- ===== src/Transaction/Guarded.antt =====
-- The invariant of the controller's store: an open transaction holds the lock on its destination
-- alone, and what is settled stays as it is.
use lifeos_platform.Prelude.{String, ◌≡◌, ◌≢◌, Bool, true, false, Option, some, arith, eq_iff}
use lifeos_platform.Prelude.Keyed.{update}
use lifeos_platform.Transaction.World.{Manifest}
use lifeos_platform.Transaction.Phases.{is_settled}
use lifeos_platform.Transaction.Rules.{Store}

-- `frozen` are the manifests that had settled at some earlier time.
pub record IsGuarded (frozen : String → Option Manifest) (s : Store) : Type 0 where
  pub named : (j : String) (n : Manifest) → s.manifests j ≡ some n → n.transaction_id ≡ j
  pub housed : (j : String) (n : Manifest) → s.manifests j ≡ some n → s.txdirs j ≡ true
  pub locked :
      (j : String) (n : Manifest)
      → s.manifests j ≡ some n
      → is_settled n.state ≡ false
      → s.locks n.resource_lock ≡ true
  pub sole :
      (j k : String) (n p : Manifest)
      → s.manifests j ≡ some n
      → s.manifests k ≡ some p
      → is_settled n.state ≡ false
      → is_settled p.state ≡ false
      → n.resource_lock ≡ p.resource_lock
      → j ≡ k
  pub kept :
      (j : String) (n : Manifest)
      → frozen j ≡ some n
      → (s.manifests j ≡ some n) × (is_settled n.state ≡ true)

-- No open transaction holds the lock `l`.
abbrev pub IsFree : String → Store → Type 0
IsFree l s =
    (k : String) (p : Manifest)
    → s.manifests k ≡ some p
    → is_settled p.state ≡ false
    → p.resource_lock ≢ l

abbrev pub with_manifest : Manifest → Store → Store
with_manifest m s = record s { manifests = update s.manifests m.transaction_id (some m) }

abbrev pub with_lock : String → Bool → Store → Store
with_lock l b s = record s { locks = update s.locks l b }

pub with_manifest_at :
    (s : Store) (id : String) (m : Manifest)
    → m.transaction_id ≡ id
    → (with_manifest m s).manifests id ≡ some m
with_manifest_at s id m e = ground (arith, eq_iff m.transaction_id id)

module _ (frozen : String → Option Manifest) (s : Store) (id : String) (m m' : Manifest) where
  -- Saving a manifest over an open one that holds the same lock.
  pub save-IsGuarded :
      IsGuarded frozen s
      → s.manifests id ≡ some m
      → is_settled m.state ≡ false
      → m'.transaction_id ≡ id
      → m'.resource_lock ≡ m.resource_lock
      → IsGuarded frozen (with_manifest m' s)
  save-IsGuarded h e unsettled i l = record {
    named = λ j n q. ground (arith, eq_iff m'.transaction_id j, h.named j n);
    housed = λ j n q. ground (arith, eq_iff m'.transaction_id j, h.housed j n, h.housed id m);
    locked = λ j n q u. ground (arith, eq_iff m'.transaction_id j, h.locked j n, h.locked id m);
    sole = λ j k n p q r u v w. ground (
      arith,
      eq_iff m'.transaction_id j,
      eq_iff m'.transaction_id k,
      h.sole j k n p,
      h.sole id k m p,
      h.sole j id n m,
    );
    kept = λ j n q. ground (arith, eq_iff m'.transaction_id j, h.kept j n);
  }

  -- Once it is saved as settled, nobody holds its lock.
  pub settle-IsFree :
      IsGuarded frozen s
      → s.manifests id ≡ some m
      → is_settled m.state ≡ false
      → m'.transaction_id ≡ id
      → is_settled m'.state ≡ true
      → IsFree m.resource_lock (with_manifest m' s)
  settle-IsFree h e unsettled i done k p q u l =
      ground (arith, eq_iff m'.transaction_id k, h.sole id k m p)

-- Releasing a lock that nobody holds, and taking one.
pub unlock-IsGuarded :
    (frozen : String → Option Manifest) (s : Store) (l : String)
    → IsGuarded frozen s
    → IsFree l s
    → IsGuarded frozen (with_lock l false s)
unlock-IsGuarded frozen s l h free = record {
  named = h.named;
  housed = h.housed;
  locked = λ j n q u. ground (arith, eq_iff l n.resource_lock, h.locked j n, free j n);
  sole = h.sole;
  kept = h.kept;
}

pub lock-IsGuarded :
    (frozen : String → Option Manifest) (s : Store) (l : String)
    → IsGuarded frozen s
    → IsGuarded frozen (with_lock l true s)
lock-IsGuarded frozen s l h = record {
  named = h.named;
  housed = h.housed;
  locked = λ j n q u. ground (arith, eq_iff l n.resource_lock, h.locked j n);
  sole = h.sole;
  kept = h.kept;
}

-- A lock that is not taken is held by nobody.
pub unlocked-IsFree :
    (frozen : String → Option Manifest) (s : Store) (l : String)
    → IsGuarded frozen s
    → s.locks l ≡ false
    → IsFree l s
unlocked-IsFree frozen s l h e k p q u r = ground (arith, h.locked k p q u)
