-- ===== src/Transaction/Opening.antt =====
-- The store while `begin` opens a transaction: what holds before its directory, before its first
-- manifest, while it is open, and after it has been given up.
use lifeos_platform.Prelude.{
  String, ◌∙◌, ◌≡◌, sym, true, false, Option, none, some, arith, eq_iff, inl, inr, Option-cases,
}
use lifeos_platform.Prelude.Keyed.{update}
use lifeos_platform.Transaction.World.{Manifest}
use lifeos_platform.Transaction.Phases.{is_settled}
use lifeos_platform.Transaction.Rules.{Store}
use lifeos_platform.Transaction.Guarded.{
  IsGuarded, IsFree, with_manifest, with_manifest_at, with_lock, save-IsGuarded, lock-IsGuarded,
  unlocked-IsFree,
}

module _ (frozen : String → Option Manifest) (id lock : String) where
  -- Between the check that `id` is new and the making of its directory.
  pub record IsNew (s : Store) : Type 0 where
    pub guarded : IsGuarded frozen s
    pub absent : s.txdirs id ≡ false

  -- Once the lock is taken, only the transaction itself may hold it.
  pub record IsPending (s : Store) : Type 0 where
    pub guarded : IsGuarded frozen s
    pub only :
        (k : String) (p : Manifest)
        → s.manifests k ≡ some p
        → is_settled p.state ≡ false
        → p.resource_lock ≡ lock
        → k ≡ id
    pub unfrozen : frozen id ≡ none

  -- Before the first manifest is saved.
  pub record IsLocked (s : Store) : Type 0 where
    pub guarded : IsGuarded frozen s
    pub free : IsFree lock s
    pub taken : s.locks lock ≡ true
    pub blank : s.manifests id ≡ none
    pub unfrozen : frozen id ≡ none

  -- Once its directory is made, too.
  pub record IsHoused (s : Store) : Type 0 where
    pub before : IsLocked s
    pub housed : s.txdirs id ≡ true

  -- While its manifest is there and open.
  pub record IsOpen (m : Manifest) (s : Store) : Type 0 where
    pub guarded : IsGuarded frozen s
    pub at : s.manifests id ≡ some m
    pub same_id : m.transaction_id ≡ id
    pub same_lock : m.resource_lock ≡ lock
    pub unsettled : is_settled m.state ≡ false
    pub unfrozen : frozen id ≡ none

  pub IsLocked-IsPending : (s : Store) → IsLocked s → IsPending s
  IsLocked-IsPending s h = record {
    guarded = h.guarded;
    only = λ k p q u l. absurd (h.free k p q u l);
    unfrozen = h.unfrozen;
  }

  pub IsOpen-IsPending : (m : Manifest) (s : Store) → IsOpen m s → IsPending s
  IsOpen-IsPending m s h = record {
    guarded = h.guarded;
    only = λ k p q u l. ground (arith, h.guarded.sole k id p m q h.at u h.unsettled);
    unfrozen = h.unfrozen;
  }

  IsNew-blank : (s : Store) → IsNew s → s.manifests id ≡ none
  IsNew-blank s h = elim (Option-cases (s.manifests id)) [
    | inl e ↦ e
    | inr (n, e) ↦ ground (arith, h.guarded.housed id n e, h.absent)
  ]

  IsNew-unfrozen : (s : Store) → IsNew s → frozen id ≡ none
  IsNew-unfrozen s h = elim (Option-cases (frozen id)) [
    | inl e ↦ e
    | inr (n, e) ↦ ground (arith, (h.guarded.kept id n e).0, IsNew-blank s h)
  ]

  pub take-IsLocked :
      (s : Store) → IsNew s → s.locks lock ≡ false → IsLocked (with_lock lock true s)
  take-IsLocked s h e = record {
    guarded = lock-IsGuarded frozen s lock h.guarded;
    free = unlocked-IsFree frozen s lock h.guarded e;
    taken = ground (arith, eq_iff lock lock);
    blank = IsNew-blank s h;
    unfrozen = IsNew-unfrozen s h;
  }

  abbrev pub with_dir : Store → Store
  with_dir s = record s { txdirs = update s.txdirs id true }

  pub make-IsHoused : (s : Store) → IsLocked s → IsHoused (with_dir s)
  make-IsHoused s h = record {
    before = record {
      guarded = record {
        named = h.guarded.named;
        housed = λ j n q. ground (arith, eq_iff id j, h.guarded.housed j n);
        locked = h.guarded.locked;
        sole = h.guarded.sole;
        kept = h.guarded.kept;
      };
      free = h.free;
      taken = h.taken;
      blank = h.blank;
      unfrozen = h.unfrozen;
    };
    housed = ground (arith, eq_iff id id);
  }

  module _ (m : Manifest) (s : Store) (named : m.transaction_id ≡ id) (own : m.resource_lock ≡ lock)
      (unsettled : is_settled m.state ≡ false) where
    created-IsGuarded : IsHoused s → IsGuarded frozen (with_manifest m s)
    created-IsGuarded h = record {
      named = λ j n q. ground (arith, eq_iff m.transaction_id j, h.before.guarded.named j n);
      housed =
          λ j n q. ground (arith, eq_iff m.transaction_id j, h.before.guarded.housed j n, h.housed);
      locked = λ j n q u.
          ground (arith, eq_iff m.transaction_id j, h.before.guarded.locked j n, h.before.taken);
      sole = λ j k n p q r u v w. ground (
        arith,
        eq_iff m.transaction_id j,
        eq_iff m.transaction_id k,
        h.before.guarded.sole j k n p,
        h.before.free k p,
        h.before.free j n,
      );
      kept = λ j n q.
          ground (arith, eq_iff m.transaction_id j, h.before.guarded.kept j n, h.before.unfrozen);
    }

    pub create-IsOpen : IsHoused s → IsOpen m (with_manifest m s)
    create-IsOpen h = record {
      guarded = created-IsGuarded h;
      at = with_manifest_at s id m named;
      same_id = named;
      same_lock = own;
      unsettled = unsettled;
      unfrozen = h.before.unfrozen;
    }

    pub keep-IsOpen : (old : Manifest) → IsOpen old s → IsOpen m (with_manifest m s)
    keep-IsOpen old h = record {
      guarded =
          save-IsGuarded frozen s id old m h.guarded h.at h.unsettled named (own ∙ sym h.same_lock);
      at = with_manifest_at s id m named;
      same_id = named;
      same_lock = own;
      unsettled = unsettled;
      unfrozen = h.unfrozen;
    }

  -- The directory of a transaction that is given up, with all that stands in it.
  abbrev pub without_dir : Store → Store
  without_dir s = record s {
    txdirs = update s.txdirs id false;
    manifests = update s.manifests id none;
  }

  pub remove-IsGuarded : (s : Store) → IsPending s → IsGuarded frozen (without_dir s)
  remove-IsGuarded s h = record {
    named = λ j n q. ground (arith, eq_iff id j, h.guarded.named j n);
    housed = λ j n q. ground (arith, eq_iff id j, h.guarded.housed j n);
    locked = λ j n q u. ground (arith, eq_iff id j, h.guarded.locked j n);
    sole = λ j k n p q r u v w. ground (arith, eq_iff id j, eq_iff id k, h.guarded.sole j k n p);
    kept = λ j n q. ground (arith, eq_iff id j, h.guarded.kept j n, h.unfrozen);
  }

  pub remove-IsFree : (s : Store) → IsPending s → IsFree lock (without_dir s)
  remove-IsFree s h k p q u l = ground (arith, eq_iff id k, h.only k p)
