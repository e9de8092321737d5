-- ===== src/Router/Policy.antt =====
-- engineer/provider_router.py: the policy, the providers, and the rules on one provider.
use lifeos_platform.Prelude.{
  ℕ, String, Bool, false, ◌||◌, not, Option, none, some, List, [], ◌∷◌, str_eq, is_text, is_empty,
  ◌==◌, if◌then◌else◌,
}
use lifeos_platform.Prelude.Exec.{Result, ok, err}

-- `PolicyError`, and the error of a missing key.
pub data Error : Type 0 where
  policy_error key_error : Error

-- What `provider.get("credentials")` may be: a list, whose items may be no texts, or another value.
pub data Credentials : Type 0 where
  listed : List (Option String) → Credentials
  not_a_list : Credentials

-- An optional field is `none` where the key is missing.
pub record Provider : Type 0 where
  pub id : Option String
  pub task_classes : List String
  pub cost : Option String
  pub adapter : Option String
  pub capability : Option ℕ
  pub priority : Option ℕ
  pub privacy : Option String
  pub private_only : Bool
  pub credential : Option String
  pub credentials : Option Credentials
  pub role : Option String

pub record Policy : Type 0 where
  pub providers : List Provider
  pub minimum_capability : String → Option ℕ
  pub allow_paid_fallback : Bool
  pub max_attempts_per_provider : Option ℕ
  pub cooldown_seconds : Option ℕ

-- The document that `load_policy` parses; `providers` is `none` where it is no list.
pub record Document : Type 0 where
  pub schema_version : Option ℕ
  pub strategy : Option String
  pub listing : Option (List Provider)
  pub rest : Policy

unfoldable pub with_providers : Policy → Option (List Provider) → Result Error Policy
with_providers policy none = err policy_error
with_providers policy (some ps) =
    if is_empty ps then err policy_error else ok (record policy { providers = ps })

abbrev is_three : Option ℕ → Bool
is_three none = false
is_three (some n) = n == 3

unfoldable pub load_policy : Document → Result Error Policy
load_policy d =
    if not (is_three d.schema_version)
    then err policy_error
    else if not (is_text d.strategy "cheapest-capable")
    then err policy_error
    else with_providers d.rest d.listing

abbrev pub or_default : Option ℕ → ℕ → ℕ
or_default none n = n
or_default (some m) n = m

abbrev pub or_text : Option String → String → String
or_text none t = t
or_text (some s) t = s

-- `COST_RANK.get(cost, 99)`
unfoldable pub cost_rank : String → ℕ
cost_rank cost =
    if str_eq cost "deterministic"
    then 0
    else if str_eq cost "local"
    then 1
    else if str_eq cost "free" || (str_eq cost "free-tier" || str_eq cost "free-models-only")
    then 2
    else if str_eq cost "scarce"
    then 3
    else if str_eq cost "paid"
    then 4
    else 99

-- The texts of a list whose items all are texts, none of them empty.
unfoldable pub texts : List (Option String) → Result Error (List String)
texts [] = ok []
texts (none ∷ xs) = err policy_error
texts (some x ∷ xs) = if str_eq x "" then err policy_error else prepend (texts xs)
  where
    prepend : Result Error (List String) → Result Error (List String)
    prepend (ok ys) = ok (x ∷ ys)
    prepend (err e) = err e

unfoldable pub credentials : Option Credentials → Option String → Result Error (List String)
unfolding texts
credentials none none = ok []
credentials none (some one) = ok (if str_eq one "" then [] else one ∷ [])
credentials (some not_a_list) one = err policy_error
credentials (some (listed names)) one = texts names

unfoldable pub minimum_capability : Policy → String → ℕ
minimum_capability policy task_class =
    or_default (policy.minimum_capability task_class)
      (or_default (policy.minimum_capability "default") 1)

abbrev pub is_local : Provider → Bool
is_local p = is_text p.privacy "local" || is_text p.privacy "deterministic"

unfoldable pub privacy_allowed : Provider → String → Bool
privacy_allowed p privacy =
    let boundary = or_text p.privacy "sanitized-cloud" in
    if str_eq privacy "local-only"
    then str_eq boundary "local" || str_eq boundary "deterministic"
    else if p.private_only
    then false
    else str_eq boundary "local"
      || (str_eq boundary "deterministic" || str_eq boundary "sanitized-cloud")
