-- ===== src/Agent/Canonical.antt =====
-- governor/autonomous_agent.py: `verify_canonical_assertions` and `independent_verify`.
use lifeos_platform.Prelude.{
  ℕ, suc, String, Bool, true, false, ◌&&◌, not, Option, none, some, List, [], ◌∷◌, all, str_eq,
  ◌==◌,
}
use lifeos_platform.Prelude.Exec.{Result, ok, err, Exec, pure, attempt, ◌>>=◌}
use lifeos_platform.Agent.Decision.{Verdict}
use lifeos_platform.Agent.Loop.{Exception}
use lifeos_platform.Agent.Assertions.{Assertion, tracked_text_contains, tracked_path_absent}

pub data Query : Type 0 where
  rev_parse_head rev_parse_origin_main git_status : Query

-- What the n-th call of git prints, stripped, or raises, and the code with which `git grep` or
-- `git cat-file` for an assertion ends.
pub record Git : Type 0 where
  pub prints : ℕ → Query → Result Exception String
  pub code : ℕ → Assertion → Result Exception ℕ

-- The number of calls.
abbrev pub Method : Type 0 → Type 0
Method A = Exec ℕ Exception A

pub record Checkout : Type 0 where
  pub head : String
  pub origin_main : String
  pub is_dirty : Bool

-- The evidence: an assertion with whether it passed.
pub data Answer : Type 0 where
  none_declared : Answer
  repository_unavailable : String → Answer
  report : Checkout → List (Assertion × Bool) → Answer

abbrev pub item_passed : Assertion → ℕ → Bool
item_passed (tracked_text_contains id path value) code = code == 0
item_passed (tracked_path_absent id value) code = not (code == 0)

abbrev pub is_aligned : Checkout → Bool
is_aligned c = not c.is_dirty && str_eq c.head c.origin_main

-- The first component that is returned.
abbrev pub canonical_result : Answer → Option Bool
canonical_result none_declared = none
canonical_result (repository_unavailable kind) = some false
canonical_result (report c results) = some (is_aligned c && all (λ r. r.1) results)

module _ (git : Git) where
  unfoldable pub query : Query → Method String
  query q n = (git.prints n q, suc n)

  unfoldable pub checkout : Method Checkout
  checkout = do
    head ← query rev_parse_head
    origin_main ← query rev_parse_origin_main
    status ← query git_status
    pure (record { head = head; origin_main = origin_main; is_dirty = not (str_eq status "") })

  unfoldable pub run_check : Assertion → Method ℕ
  run_check a n = (git.code n a, suc n)

  unfoldable pub check_all : List Assertion → Method (List (Assertion × Bool))
  check_all [] = pure []
  check_all (a ∷ rest) = do
    code ← run_check a
    results ← check_all rest
    pure ((a, item_passed a code) ∷ results)

  abbrev pub report_on : List Assertion → Result Exception Checkout → Method Answer
  report_on assertions (err e) = pure (repository_unavailable e.kind)
  report_on assertions (ok c) = do results ← check_all assertions; pure (report c results)

  unfoldable pub verify_canonical_assertions : List Assertion → Method Answer
  verify_canonical_assertions [] = pure none_declared
  verify_canonical_assertions (a ∷ rest) = do tried ← attempt checkout; report_on (a ∷ rest) tried

-- `local` is the answer of the local model.
abbrev pub independent_verify : Result Exception Verdict → Option Bool → Result Exception Verdict
independent_verify local none = local
independent_verify local (some true) = ok (record {
  verdict = some "PASS";
  reason = some "declared canonical assertions passed independent deterministic verification";
  next_instruction = some "";
})
independent_verify local (some false) = ok (record {
  verdict = some "RETRY";
  reason =
      some
        "declared canonical assertions are not satisfied in the clean aligned canonical checkout";
  next_instruction =
      some "Continue governed engineering until the declared canonical assertions pass.";
})
