-- ===== src/Transaction/Begin.antt =====
-- homelab/live/usr/local/lib/lifeos_transaction.py, `Controller.begin`: the validation of a
-- proposal, the lock on its destination, and the arming of the watchdog.
use Prim.Native.String.{◌++◌}
use lifeos_platform.Prelude.{
  ℕ, suc, ◌+◌, String, Bool, true, false, not, ◌&&◌, ◌||◌, Option, none, some, List, [], ◌∷◌, any,
  if◌then◌else◌, str_eq, is_text, is_empty,
}
use lifeos_platform.Prelude.Exec.{ok, pure, raise, gets, try_except, raise_if, ◌>>=◌, ◌>>◌}
use lifeos_platform.Prelude.Keyed.{update}
use lifeos_platform.Transaction.World.{
  Platform, File, Check, not_dict, dict, Prior, absent, present, preparing, armed, Manifest, Method,
  already_exists, operation_denied, risk_denied, not_absolute, source_not_regular,
  destination_denied, checksum_mismatch, checks_required, check_denied, hash_check_required,
  conflict, destination_not_regular, effect, touch, now, set_timer, set_lock, set_backup,
}
use lifeos_platform.Transaction.Files.{is_allowlisted, dir, save, systemctl, sha256}

abbrev pub default_deadline : ℕ
default_deadline = 7200

-- The proposal as it came from JSON; `checks` is `none` where it is missing or no list.
pub record Proposal : Type 0 where
  pub operation : Option String
  pub risk : Option String
  pub component : Option String
  pub source : Option String
  pub destination : Option String
  pub sha256 : Option String
  pub checks : Option (List Check)

abbrev pub or_default : Option String → String → String
or_default none d = d
or_default (some s) d = s

abbrev pub or_empty : Option (List Check) → List Check
or_empty none = []
or_empty (some cs) = cs

abbrev pub source_of : Proposal → String
source_of p = or_default p.source ""

abbrev pub destination_of : Proposal → String
destination_of p = or_default p.destination ""

abbrev pub checks_of : Proposal → List Check
checks_of p = or_empty p.checks

abbrev pub is_regular : Option File → Bool
is_regular none = false
is_regular (some f) = f.regular

abbrev pub allowed_check : Check → Bool
allowed_check not_dict = false
allowed_check (dict type path expected unit) =
    is_text type "file_sha256" || is_text type "service_active"

abbrev pub timer_name : String → String
timer_name id = "lifeos-rollback@" ++ (id ++ ".timer")

module _ (os : Platform) where
  -- The check that proves the destination's content, which every proposal must have.
  unfoldable pub proves_destination : String → String → Check → Bool
  proves_destination destination intended not_dict = false
  proves_destination destination intended (dict type path expected unit) =
      is_text type "file_sha256"
      && (str_eq (os.resolve (or_default path "")) (os.resolve destination)
          && is_text expected intended)

  -- The name of the lock file: the hash of the resolved destination.
  abbrev pub lock_of : String → String
  lock_of destination = os.digest (os.resolve destination)

  -- The guards from `operation` to `checks`; the result is `expected`.
  unfoldable pub validate : Proposal → Method String
  unfolding proves_destination
  validate p = do
    raise_if (not (is_text p.operation "replace_file")) operation_denied
    raise_if (not (is_text p.risk "LOW" || is_text p.risk "MEDIUM")) risk_denied
    raise_if (not (os.is_absolute (source_of p)) || not (os.is_absolute (destination_of p)))
        not_absolute
    source ← gets (λ w. w.files (source_of p))
    raise_if (not (is_regular source)) source_not_regular
    raise_if (not (is_allowlisted os (destination_of p))) destination_denied
    actual ← sha256 os source
    raise_if (not (is_text p.sha256 actual)) checksum_mismatch
    raise_if (is_empty (checks_of p)) checks_required
    raise_if (any (λ c. not (allowed_check c)) (checks_of p)) check_denied
    raise_if (not (any (proves_destination (destination_of p) actual) (checks_of p)))
        hash_check_required
    pure actual

  -- The directories, and `os.open(lock_path, O_CREAT | O_EXCL)`.
  unfoldable pub acquire_lock : String → Method (Unit {0})
  acquire_lock lock = do
    touch os
    touch os
    held ← gets (λ w. w.locks lock)
    raise_if held conflict
    effect os (set_lock lock true)
    touch os

  unfoldable pub back_up : String → Option File → Method Prior
  back_up id none = pure absent
  back_up id (some f) = do
    raise_if (not f.regular) destination_not_regular
    effect os (set_backup id f)
    backup ← gets (λ w. w.backups id)
    digest ← sha256 os backup
    touch os
    pure (present digest f.mode)

  unfoldable pub first_manifest : String → Proposal → String → Prior → ℕ → Manifest
  first_manifest id p expected prior created = record {
    transaction_id = id;
    state = preparing;
    risk = or_default p.risk "";
    component = or_default p.component "unspecified";
    source = source_of p;
    destination = destination_of p;
    intended_sha256 = expected;
    prior = prior;
    checks = checks_of p;
    resource_lock = lock_of (destination_of p);
    created_at = created;
    updated_at = created;
    deadline = some (created + default_deadline);
    timer = timer_name id;
    armed_at = [];
    verified = false;
    committed_at = none;
    rollback = none;
  }

  -- The body of the second `try`.
  unfoldable pub prepare : String → Proposal → String → Method Manifest
  unfolding first_manifest
  prepare id p expected = do
    effect os (λ w. record w { txdirs = update w.txdirs id true })
    touch os
    existing ← gets (λ w. w.files (destination_of p))
    prior ← back_up id existing
    created ← now os
    manifest ← save os (first_manifest id p expected prior created)
    systemctl os (set_timer manifest.timer true)
    at ← now os
    save os (record manifest { state = armed; armed_at = at ∷ [] })

  -- `shutil.rmtree(txdir, ignore_errors=True)`: where it cannot remove all, it says nothing.
  unfoldable pub remove_tree : String → Method (Unit {0})
  remove_tree id w =
      let left = record w { calls = suc w.calls } in
      if os.tree_removed w.calls
      then (
        ok tt,
        record left {
          txdirs = update w.txdirs id false;
          manifests = update w.manifests id none;
          backups = update w.backups id none;
          proofs = update w.proofs id none;
        },
      )
      else (ok tt, left)

  -- What follows once the lock is held.
  unfoldable pub begin_locked : String → Proposal → String → Method Manifest
  begin_locked id p expected =
      try_except (prepare id p expected) (λ e.
        remove_tree id >> (effect os (set_lock (lock_of (destination_of p)) false) >> raise e))

  unfoldable pub begin : String → Proposal → Method Manifest
  begin id p = do
    dir os id
    exists ← gets (λ w. w.txdirs id)
    raise_if exists already_exists
    expected ← validate p
    acquire_lock (lock_of (destination_of p))
    begin_locked id p expected
