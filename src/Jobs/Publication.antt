-- ===== src/Jobs/Publication.antt =====
-- governor/job_records.py: `publish_record` and `_stage_runtime_record`.
use lifeos_platform.Prelude.{
  ℕ, suc, String, Bool, not, Option, none, some, List, ◌∷◌, ◌==◌, if◌then◌else◌,
}
use lifeos_platform.Prelude.Exec.{Result, ok, err, Exec, pure, raise_if, try_except, ◌>>=◌, ◌>>◌}
use lifeos_platform.Prelude.Keyed.{update}

pub data PublicationState : Type 0 where
  is_staged is_published is_unpublished : PublicationState

pub data Command : Type 0 where
  add diff commit push rev_parse : Command

-- A command ends with a return code, or does not end in time or cannot be started.
pub data Exit : Type 0 where
  raised : Exit
  code : ℕ → Exit

pub data Error : Type 0 where
  os_error command_error git_add_failed git_commit_failed git_diff_failed git_push_failed : Error

pub data Answer : Type 0 where
  published : (commit : Option String) → Answer
  staged : Answer
  invalid_job_id : Answer
  unpublished : (reason : Error) → Answer

-- `record_of` is what the file of a job in the checkout says of its publication, `staged_of` the
-- one under LIFEOS_AGENT_STATE; `ran` has the commands of git that ended, the newest first.
pub record World : Type 0 where
  pub record_of : String → Option PublicationState
  pub staged_of : String → Option PublicationState
  pub ran : List (Command × ℕ)
  pub calls : ℕ

-- What the system answers to its n-th call. A write that fails may leave anything of the file.
pub record Platform : Type 0 where
  pub valid_id : String → Bool
  pub runtime_state : Bool
  pub makes : ℕ → Bool
  pub writes : ℕ → Bool
  pub leaves : ℕ → Option PublicationState
  pub git : ℕ → Command → Exit
  pub head : ℕ → String

abbrev pub Method : Type 0 → Type 0
Method A = Exec World Error A

module _ (os : Platform) where
  abbrev pub next : World → World
  next w = record w { calls = suc w.calls }

  unfoldable pub mkdir : Method (Unit {0})
  mkdir w = ((if os.makes w.calls then ok tt else err os_error), next w)

  abbrev pub written : ℕ → PublicationState → Option PublicationState
  written n s = if os.writes n then some s else os.leaves n

  unfoldable pub write_record : String → PublicationState → Method (Unit {0})
  write_record id s w = (
    (if os.writes w.calls then ok tt else err os_error),
    record (next w) { record_of = update w.record_of id (written w.calls s) },
  )

  unfoldable pub write_staged : String → PublicationState → Method (Unit {0})
  write_staged id s w = (
    (if os.writes w.calls then ok tt else err os_error),
    record (next w) { staged_of = update w.staged_of id (written w.calls s) },
  )

  abbrev pub ended : Command → World → Exit → Result Error ℕ × World
  ended c w raised = (err command_error, next w)
  ended c w (code n) = (ok n, record (next w) { ran = (c, n) ∷ w.ran })

  unfoldable pub command : Command → Method ℕ
  command c w = ended c w (os.git w.calls c)

  -- The checks on the return code of `git diff --cached --quiet`.
  unfoldable pub commit_changes : ℕ → Method (Unit {0})
  commit_changes n =
      if n == 1
      then (do c ← command commit; raise_if (not (c == 0)) git_commit_failed)
      else raise_if (not (n == 0)) git_diff_failed

  -- The body of the `try`.
  unfoldable pub push_record : Method Answer
  push_record = do
    a ← command add
    raise_if (not (a == 0)) git_add_failed
    d ← command diff
    commit_changes d
    p ← command push
    raise_if (not (p == 0)) git_push_failed
    r ← command rev_parse
    λ w. pure (published (if r == 0 then some (os.head w.calls) else none)) w

  unfoldable pub withdraw : String → Error → Method Answer
  withdraw id e = do write_record id is_unpublished; pure (unpublished e)

  unfoldable pub publish_in_checkout : String → Method Answer
  publish_in_checkout id = do
    mkdir
    write_record id is_published
    try_except push_record (withdraw id)

  unfoldable pub stage_runtime_record : String → Method Answer
  stage_runtime_record id = do mkdir; write_staged id is_staged; pure staged

  unfoldable pub publish_record : String → Method Answer
  publish_record id =
      if not (os.valid_id id)
      then pure invalid_job_id
      else if os.runtime_state
      then stage_runtime_record id
      else publish_in_checkout id
