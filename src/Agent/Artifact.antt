-- ===== src/Agent/Artifact.antt =====
-- governor/autonomous_agent.py: `verify_runtime_artifact`, `publish_runtime_artifact` and
-- `run_pi5_runtime`, the bounded run of a job's script.
use lifeos_platform.Prelude.{
  ℕ, suc, String, Bool, true, false, ◌&&◌, ◌||◌, not, Option, none, some, List, ◌∷◌, str_eq,
  is_text, ltb, if◌then◌else◌,
}
use lifeos_platform.Prelude.Exec.{
  Result, ok, err, Exec, pure, gets, raise_if, try_except, ◌>>=◌, ◌>>◌,
}
use lifeos_platform.Agent.Loop.{Exception}

-- A file of the runtime directory.
pub record File : Type 0 where
  pub content : String
  pub is_symlink : Bool
  pub is_regular : Bool
  pub is_executable : Bool

-- A decoded payload: its bytes, their number, and its text where it is UTF-8.
pub record Script : Type 0 where
  pub content : String
  pub size : ℕ
  pub text : Option String

-- `JOB_ID_PATTERN.fullmatch`, `b64decode(…, validate=True)`, `startswith`, the SHA-256 of a content,
-- whether what stands at the place resolves to a path outside the runtime directory, the exception of the n-th call of the file system, if there is one, and what a script answers.
pub record System : Type 0 where
  pub is_job_id : String → Bool
  pub b64decode : String → Result String Script
  pub starts_with : String → String → Bool
  pub digest : String → String
  pub escapes : Option File → Bool
  pub failure : ℕ → Option Exception
  pub run : ℕ → File → Result Exception String

-- The file at the job's place, and the files that were run, the newest first.
pub record World : Type 0 where
  pub target : Option File
  pub executed : List File
  pub calls : ℕ

-- The evidence: a digest that was found at the place, or the reason of a failure.
pub data Answer : Type 0 where
  none_declared : Answer
  found : String → Answer
  failed : String → Answer

abbrev pub Method : Type 0 → Type 0
Method A = Exec World Exception A

-- What `relative_to` raises.
abbrev pub value_error : Exception
value_error = record { kind = "ValueError"; text = "" }

abbrev pub max_runtime_bytes : ℕ
max_runtime_bytes = 65536

module _ (sys : System) where
  abbrev pub answered : {A : Type 0} → Option Exception → A → Result Exception A
  answered none a = ok a
  answered (some e) a = err e

  -- A call of the file system that changes nothing at the place, such as the temporary file's.
  unfoldable pub touch : Method (Unit {0})
  touch w = (answered (sys.failure w.calls) tt, record w { calls = suc w.calls })

  -- `os.replace` of the temporary file over the place.
  abbrev pub replaced : Option Exception → File → World → World
  replaced none file w = record w { target = some file; calls = suc w.calls }
  replaced (some e) file w = record w { calls = suc w.calls }

  unfoldable pub replace : File → Method (Unit {0})
  replace file w = (answered (sys.failure w.calls) tt, replaced (sys.failure w.calls) file w)

  abbrev pub matches : Option String → String → Bool
  matches none digest = true
  matches (some expected) digest = str_eq digest expected

  abbrev pub inspect : Option String → Option File → Answer
  inspect expected none = failed "runtime_file_missing_or_unsafe"
  inspect expected (some file) =
      if file.is_symlink || not file.is_regular
      then failed "runtime_file_missing_or_unsafe"
      else if not file.is_executable
      then failed "runtime_file_not_executable"
      else if not (matches expected (sys.digest file.content))
      then failed "sha256_mismatch"
      else found (sys.digest file.content)

  unfoldable pub verify_runtime_artifact : String → Option String → Method Answer
  verify_runtime_artifact job_id expected =
      if not (sys.is_job_id job_id)
      then pure (failed "invalid_job_id")
      else try_except
          (do
            touch
            target ← gets (λ w. w.target)
            raise_if (sys.escapes target) value_error
            pure (inspect expected target))
          (λ e. pure (failed "verification_error"))

  abbrev pub is_found : Answer → Bool
  is_found (found digest) = true
  is_found _ = false

  abbrev pub is_link : Option File → Bool
  is_link none = false
  is_link (some file) = file.is_symlink

  -- The script through a temporary file, with the mode 0700.
  unfoldable pub place : String → Script → Method Answer
  place job_id script = do
    touch
    target ← gets (λ w. w.target)
    if is_link target then pure (failed "symlink_rejected") else (do
      touch
      replace (record {
        content = script.content;
        is_symlink = false;
        is_regular = true;
        is_executable = true;
      })
      verify_runtime_artifact job_id (some (sys.digest script.content)))

  unfoldable pub publish_script : String → Script → Method Answer
  publish_script job_id script = do
    touch
    already ← verify_runtime_artifact job_id (some (sys.digest script.content))
    if is_found already
        then pure already
        else try_except (place job_id script) (λ e. pure (failed "publication_error"))

  abbrev pub has_shebang : Option String → Bool
  has_shebang none = false
  has_shebang (some text) = sys.starts_with text "#!/usr/bin/env bash"

  abbrev pub publish_decoded : String → Result String Script → Method Answer
  publish_decoded job_id (err kind) = pure (failed "invalid_payload")
  publish_decoded job_id (ok script) =
      if ltb max_runtime_bytes script.size || not (has_shebang script.text)
      then pure (failed "invalid_payload")
      else publish_script job_id script

  abbrev pub is_missing : Option String → Bool
  is_missing none = true
  is_missing (some s) = str_eq s ""

  abbrev pub payload_text : Option String → String
  payload_text none = ""
  payload_text (some s) = s

  -- `expected` is the path of the job's script.
  unfoldable pub publish_runtime_artifact :
      String → String → String → Option String → Option String → Option String → Method Answer
  publish_runtime_artifact job_id privacy expected route run_script payload =
      if not (sys.is_job_id job_id)
      then pure (failed "invalid_job_id")
      else if is_missing run_script && is_missing payload
      then pure none_declared
      else if not (is_text run_script expected)
      then pure (failed "rejected_path")
      else if str_eq privacy "local-only" && not (is_text route "local")
      then pure (failed "cloud_authored_private_job")
      else publish_decoded job_id (sys.b64decode (payload_text payload))

  abbrev pub execute_file : Option File → Method String
  execute_file none w = (err (record { kind = "FileNotFoundError"; text = "" }), w)
  execute_file (some file) w =
      (sys.run w.calls file, record w { executed = file ∷ w.executed; calls = suc w.calls })

  abbrev pub run_published : Answer → Method (Answer × Option String)
  run_published (found digest) = do
    target ← gets (λ w. w.target)
    output ← execute_file target
    pure (found digest, some output)
  run_published answer = pure (answer, none)

  unfoldable pub run_runtime :
      String
      → String
      → String
      → Option String
      → Option String
      → Option String
      → Method (Answer × Option String)
  run_runtime job_id privacy expected route run_script payload =
      if is_missing run_script && is_missing payload then pure (none_declared, none) else (do
        answer ← publish_runtime_artifact job_id privacy expected route run_script payload
        run_published answer)
