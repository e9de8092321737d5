-- ===== src/Agent/AssertionTests.antt =====
-- Validations of assertions, and verifications on a clean checkout.
use lifeos_platform.Prelude.{
  ℕ, String, ◌≡◌, ◌≤◌, refl, sym, arith, ◌↔◌, Bool, true, false, Option, none, some, List, [], ◌∷◌,
  length, str_eq,
}
use lifeos_platform.Prelude.Exec.{Result, ok, err}
use lifeos_platform.Prelude.Exec as Exec
use lifeos_platform.Prelude.Outcome.{Ensures, require, expect, ◌>>=◌}
use lifeos_platform.Prelude.Post.{Post}
use lifeos_platform.Agent.Decision.{Verdict}
use lifeos_platform.Agent.Loop.{Exception}
use lifeos_platform.Agent.Assertions.{
  Strings, Item, Given, listed, invalid_id, invalid_path, Assertion, tracked_text_contains,
  tracked_path_absent, rendered, is_value, is_path, validate_item, validate_items,
  validate_canonical_assertions,
}
use lifeos_platform.Agent.Validated.{
  Accepted, given_again, validate_canonical_assertions-Accepted,
  validate_canonical_assertions-rendered,
}
use lifeos_platform.Agent.Canonical.{
  git_status, Git, Answer, query, checkout, run_check, check_all, canonical_result,
  verify_canonical_assertions,
}
use lifeos_platform.Agent.Confirmed.{
  Repository, AllHold, Tells, Truthful, IsClean, Passes, verify_canonical_assertions-Confirmed,
}

abbrev strings : Strings
strings = record {
  is_id = λ s. true;
  length_of = λ s. 1;
  mentions = λ s t. false;
  is_rooted = λ s. str_eq s "/etc";
  split = λ s. s ∷ [];
}

abbrev text_item : String → String → Item
text_item id path = rendered (tracked_text_contains id path "word")

abbrev absent_item : String → String → Item
absent_item id value = rendered (tracked_path_absent id value)

abbrev accepted : List Assertion
accepted = tracked_text_contains "a" "README.md" "word" ∷ tracked_path_absent "b" "/etc" ∷ []

-- The path that is to be absent is not checked to be one.
accepts :
    validate_canonical_assertions strings
      (listed (some (text_item "a" "README.md") ∷ some (absent_item "b" "/etc") ∷ []))
    ≡ ok accepted
unfolding validate_canonical_assertions validate_items validate_item is_value is_path require expect
    ◌>>=◌
accepts = refl

refuses_twice :
    validate_canonical_assertions strings
      (listed (some (absent_item "b" "x") ∷ some (absent_item "b" "y") ∷ []))
    ≡ err invalid_id
unfolding validate_canonical_assertions validate_items validate_item is_value is_path require expect
    ◌>>=◌
refuses_twice = refl

refuses_rooted :
    validate_canonical_assertions strings (listed (some (text_item "a" "/etc") ∷ []))
    ≡ err invalid_path
unfolding validate_canonical_assertions validate_items validate_item is_value is_path require expect
    ◌>>=◌
refuses_rooted = refl

abbrev given : Given
given = listed (some (text_item "a" "README.md") ∷ some (absent_item "b" "/etc") ∷ [])

validate_canonical_assertions-Accepted_example :
    Ensures
      (λ assertions. Accepted strings [] assertions × (length assertions ≤ 8))
      (validate_canonical_assertions strings given)
validate_canonical_assertions-Accepted_example =
    validate_canonical_assertions-Accepted strings given

validate_canonical_assertions-rendered_example :
    validate_canonical_assertions strings (listed (given_again strings accepted)) ≡ ok accepted
validate_canonical_assertions-rendered_example =
    validate_canonical_assertions-rendered strings given accepted accepts

-- The head is at origin/main and nothing is changed; each command ends with the given code.
abbrev git : ℕ → Git
git code = record {
  prints = λ n q. elim q [ git_status ↦ ok "" | _ ↦ ok "head" ];
  code = λ n a. ok code;
}

abbrev no_model : Result Exception Verdict
no_model = err (record { kind = "OSError"; text = "" })

abbrev result_of : Result Exception Answer × ℕ → Option Bool
result_of (ok answer, n) = canonical_result answer
result_of (err e, n) = none

-- A failure of git, such as 128, is taken for the absence of a path.
absent_by_failure :
    result_of (verify_canonical_assertions (git 128) (tracked_path_absent "b" "x" ∷ []) 0)
    ≡ some true
unfolding verify_canonical_assertions checkout check_all query run_check Exec.attempt Exec.◌>>=◌
absent_by_failure = refl

-- The repository has the text, and not the path.
abbrev code_of : Assertion → ℕ
code_of (tracked_text_contains id path value) = 0
code_of (tracked_path_absent id value) = 1

abbrev honest : Git
honest = record (git 0) { code = λ n a. ok (code_of a) }

abbrev repository : Repository
repository = record { text_in = λ path value. true; tracks = λ value. false }

honest-Tells : (a : Assertion) (code : ℕ) → code_of a ≡ code → Tells repository a code
honest-Tells (tracked_text_contains id path value) code e = ((λ _. refl), (λ _. sym e))
honest-Tells (tracked_path_absent id value) code e =
    ((λ z. absurd (ground arith)), (λ h. absurd (ground arith)))

honest-Truthful : Truthful honest repository
honest-Truthful = record { tells = λ n a code e. honest-Tells a code (ground arith) }

verify_canonical_assertions-Confirmed_example :
    Post {E = Exception}
      (λ answer (t : ℕ).
        Passes honest no_model answer ↔ (IsClean honest 7 × AllHold repository accepted))
      (λ _. Unit {0})
      (verify_canonical_assertions honest accepted 7)
verify_canonical_assertions-Confirmed_example =
    verify_canonical_assertions-Confirmed honest no_model repository
      (tracked_text_contains "a" "README.md" "word") (tracked_path_absent "b" "/etc" ∷ []) 7
      honest-Truthful
