-- ===== src/Agent/Patch.antt =====
-- governor/autonomous_agent.py: `apply_and_publish_patch`, the bounded publication of a patch.
use lifeos_platform.Prelude.{
  ℕ, suc, String, not, ◌&&◌, Option, none, some, List, ◌∷◌, str_eq, is_text, ltb, is_empty,
  if◌then◌else◌,
}
use lifeos_platform.Prelude.Exec.{Result, ok, err, Exec, pure, try_except, ◌>>=◌, ◌>>◌}
use lifeos_platform.Agent.Loop.{Exception}

-- A decoded payload: what it is, and its length.
pub record Patch : Type 0 where
  pub content : String
  pub size : ℕ

-- The calls of git and of the file system, in the source's order.
pub data Command : Type 0 where
  git_status fetch rev_parse_head rev_parse_origin_main : Command
  write_patch apply_check apply : Patch → Command
  unlink add diff_check diff_names commit rev_parse_commit push : Command

-- What a call prints, by its number, or what it raises; Python's `strip` and
-- `splitlines`; `b64decode(…, validate=True)`.
pub record Shell : Type 0 where
  pub run : ℕ → Command → Result Exception String
  pub strip : String → String
  pub splitlines : String → List String
  pub b64decode : String → Result String Patch

-- The calls made, the newest first.
pub record World : Type 0 where
  pub calls : ℕ
  pub ran : List Command

-- The answers, by their first line.
pub data Answer : Type 0 where
  none_given cloud_authored no_effect : Answer
  invalid_base64 : String → Answer
  rejected_size : ℕ → Answer
  checkout_dirty : String → Answer
  not_at_origin_main : String → String → Answer
  applied : String → List String → Answer
  raised : Exception → Answer

abbrev pub Method : Type 0 → Type 0
Method A = Exec World Exception A

abbrev pub max_patch_bytes : ℕ
max_patch_bytes = 1048576

module _ (sh : Shell) where
  unfoldable pub command : Command → Method String
  command c w = (sh.run w.calls c, record { calls = suc w.calls; ran = c ∷ w.ran })

  unfoldable pub commit_and_push : Method Answer
  commit_and_push = do
    command add
    command diff_check
    staged ← command diff_names
    if is_empty (sh.splitlines staged) then pure no_effect else (do
      command commit
      sha ← command rev_parse_commit
      command push
      pure (applied (sh.strip sha) (sh.splitlines staged)))

  unfoldable pub apply_at_origin_main : Patch → Method Answer
  apply_at_origin_main patch = do
    command fetch
    head ← command rev_parse_head
    origin_main ← command rev_parse_origin_main
    if not (str_eq (sh.strip head) (sh.strip origin_main))
        then pure (not_at_origin_main (sh.strip head) (sh.strip origin_main))
        else (do
          command (write_patch patch)
          command (apply_check patch)
          command (apply patch)
          command unlink
          commit_and_push)

  unfoldable pub publish_patch : Patch → Method Answer
  publish_patch patch =
      if ltb max_patch_bytes patch.size then pure (rejected_size patch.size) else (do
        status ← command git_status
        if not (str_eq (sh.strip status) "")
            then pure (checkout_dirty (sh.strip status))
            else try_except (apply_at_origin_main patch) (λ e. pure (raised e)))

  abbrev pub publish_decoded : Result String Patch → Method Answer
  publish_decoded (err kind) = pure (invalid_base64 kind)
  publish_decoded (ok patch) = publish_patch patch

  -- The job's privacy, the builder's route and the payload of its handoff.
  unfoldable pub apply_and_publish_patch : String → Option String → Option String → Method Answer
  apply_and_publish_patch privacy route none = pure none_given
  apply_and_publish_patch privacy route (some payload) =
      if str_eq payload ""
      then pure none_given
      else if str_eq privacy "local-only" && not (is_text route "local")
      then pure cloud_authored
      else publish_decoded (sh.b64decode payload)
