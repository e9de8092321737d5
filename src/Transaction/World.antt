-- ===== src/Transaction/World.antt =====
-- homelab/live/usr/local/lib/lifeos_transaction.py: what the controller keeps on disk and what it
-- asks of the operating system. A call of the system is done, refused, or done and then reported
-- as failed (`late`), as an oracle over the number of calls made so far decides.
use Prim.Native.Char.{Char}
use lifeos_platform.Prelude.{ℕ, suc, String, Bool, true, false, Option, none, some, List}
use lifeos_platform.Prelude.Exec.{Exec, ok, err, pure, raise, ◌>>◌}
use lifeos_platform.Prelude.Keyed.{update}

pub data Outcome : Type 0 where
  done refused late : Outcome

-- pathlib, hashlib, the clock and the file system, which the controller only calls.
pub record Platform : Type 0 where
  pub resolve : String → String
  pub parents : String → List String
  pub is_absolute : String → Bool
  pub suffix : String → String
  pub is_alnum : Char → Bool
  pub digest : String → String
  pub outcome : ℕ → Outcome
  pub time : ℕ → ℕ
  pub tree_removed : ℕ → Bool

-- `regular` is `is_file() and not is_symlink()`.
pub record File : Type 0 where
  pub content : String
  pub mode : ℕ
  pub owner : ℕ
  pub regular : Bool

pub data TransactionState : Type 0 where
  preparing armed applying verifying probation rolling_back : TransactionState
  committed rolled_back failed : TransactionState

-- One member of the list `checks`, as it came from JSON.
pub data Check : Type 0 where
  not_dict : Check
  dict : (type path expected unit : Option String) → Check

pub data Prior : Type 0 where
  absent : Prior
  present : (sha256 : String) (mode : ℕ) → Prior

pub record Rollback : Type 0 where
  pub reason : String
  pub at : ℕ
  pub watchdog_disarmed : Bool

pub record Manifest : Type 0 where
  pub transaction_id : String
  pub state : TransactionState
  pub risk : String
  pub component : String
  pub source : String
  pub destination : String
  pub intended_sha256 : String
  pub prior : Prior
  pub checks : List Check
  pub resource_lock : String
  pub created_at : ℕ
  pub updated_at : ℕ
  pub deadline : Option ℕ  -- `none`: missing, or no ISO time
  pub timer : String
  pub armed_at : List ℕ  -- the `audit` list, whose only event is WATCHDOG_ARMED
  pub verified : Bool
  pub committed_at : Option ℕ
  pub rollback : Option Rollback

pub record Evidence : Type 0 where
  pub type : String
  pub passed : Bool
  pub detail : String

-- verification.json
pub record Proof : Type 0 where
  pub accepted : Bool
  pub derived_by : Option String
  pub at : Option ℕ
  pub evidence : List Evidence

pub record World : Type 0 where
  pub calls : ℕ
  pub files : String → Option File
  pub txdirs : String → Bool
  pub manifests : String → Option Manifest
  pub backups : String → Option File
  pub proofs : String → Option Proof
  pub locks : String → Bool
  pub timers : String → Bool

-- `TransactionError` by its message, and the errors of the system and of the interpreter.
pub data Error : Type 0 where
  invalid_id unavailable already_exists operation_denied risk_denied not_absolute : Error
  source_not_regular destination_denied checksum_mismatch checks_required check_denied : Error
  hash_check_required conflict destination_not_regular systemctl_failed not_armed : Error
  source_changed not_verifying verification_failed not_probation deadline_unavailable : Error
  deadline_expired evidence_unavailable evidence_rejected cannot_rollback backup_mismatch : Error
  os_error unbound_local key_error : Error

abbrev pub Method : Type 0 → Type 0
Method A = Exec World Error A

-- One call of the system, by its outcome, in the world that has counted it.
unfoldable pub carry_out : Outcome → (World → World) → Method (Unit {0})
carry_out done f w = (ok tt, f w)
carry_out refused f w = (err os_error, w)
carry_out late f w = (err os_error, f w)

unfoldable pub exit_status : Outcome → (World → World) → Method Bool
exit_status done f w = (ok true, f w)
exit_status refused f w = (ok false, w)
exit_status late f w = (err os_error, f w)

-- A world after one more call.
abbrev pub called : World → World
called w = record w { calls = suc w.calls }

module _ (os : Platform) where
  -- One call of the system that changes the world by `f` where it is carried out.
  unfoldable pub effect : (World → World) → Method (Unit {0})
  effect f w = carry_out (os.outcome w.calls) f (called w)

  -- A call that changes nothing that the model keeps: `mkdir` of a parent, a temporary file.
  abbrev pub touch : Method (Unit {0})
  touch = effect (λ w. w)

  unfoldable pub now : Method ℕ
  now w = (ok (os.time w.calls), called w)

  -- `self.run(["systemctl", …])`: whether the return code is 0. A command that timed out may have
  -- been carried out.
  unfoldable pub run : (World → World) → Method Bool
  run f w = exit_status (os.outcome w.calls) f (called w)

  -- Opening a file for reading.
  unfoldable pub read : Option File → Method File
  read none = raise os_error
  read (some f) = touch >> pure f

abbrev pub set_timer : String → Bool → World → World
set_timer t b w = record w { timers = update w.timers t b }

abbrev pub set_file : String → Option File → World → World
set_file p f w = record w { files = update w.files p f }

abbrev pub set_lock : String → Bool → World → World
set_lock l b w = record w { locks = update w.locks l b }

abbrev pub set_manifest : Manifest → World → World
set_manifest m w = record w { manifests = update w.manifests m.transaction_id (some m) }

abbrev pub set_proof : String → Proof → World → World
set_proof id p w = record w { proofs = update w.proofs id (some p) }

abbrev pub set_backup : String → File → World → World
set_backup id f w = record w { backups = update w.backups id (some f) }
