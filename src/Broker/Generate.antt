-- ===== src/Broker/Generate.antt =====
-- governor/ai_broker.py: `candidates` and `generate`, the failover between the eligible providers.
use lifeos_platform.Prelude.{
  String, Bool, true, false, ◌&&◌, ◌||◌, not, Option, none, some, List, [], ◌∷◌, ◌++◌, str_eq,
  is_text, is_empty, if◌then◌else◌,
}
use lifeos_platform.Prelude.Float.{Float}
use lifeos_platform.Prelude.Exec.{Result, ok, err, Exec, raise, pure, raise_if, ◌>>=◌, ◌>>◌}
use lifeos_platform.Router.Policy as Policy
use lifeos_platform.Router.Policy.{Provider, Policy}
use lifeos_platform.Router.Eligible.{Item, Request, eligible_providers}
use lifeos_platform.Broker.Failures.{Failure, other, Texts, category}
use lifeos_platform.Broker.Invoke.{Outside, World, invoke}

-- `response_format`: absent, "json", a schema, or anything else.
pub data Format : Type 0 where
  plain json schema unsupported : Format

pub data Error : Type 0 where
  unsupported_privacy format_restricted prompt_required no_eligible missing_id : Error
  policy_failure : Policy.Error → Error
  unexpected : String → Error
  exhausted : List (String × String) → Error

pub record Reply : Type 0 where
  pub provider : String
  pub model : String
  pub privacy : String
  pub text : String
  pub considered : List Item

pub record Call : Type 0 where
  pub prompt : String
  pub privacy : String
  pub task_class : String
  pub force_provider : Option String
  pub response_format : Format

abbrev pub is_absent : Format → Bool
is_absent plain = true
is_absent _ = false

abbrev pub is_structured : Format → Bool
is_structured json = true
is_structured schema = true
is_structured _ = false

module _ (fl : Float) where
  -- The policy file, the names of the secrets file, and the time.
  pub record Files : Type 0 where
    pub policy : Result Policy.Error Policy
    pub secret_names : Result Policy.Error (String → Bool)
    pub now : fl.F

  abbrev pub local_builder : Option (String → Bool)
  local_builder = some (λ adapter. str_eq adapter "local-builder")

  abbrev pub request_of : Files → String → String → (String → Bool) → Request fl
  request_of files privacy task_class names = record {
    task_class = task_class;
    secret_names = names;
    cooldowns = λ pid. none;
    now = files.now;
    privacy = privacy;
    available_adapters = local_builder;
  }

  abbrev pub candidates_from :
      Files
      → String
      → String
      → Result Policy.Error Policy
      → Result Policy.Error (String → Bool)
      → Result Policy.Error (List Provider × List Item)
  candidates_from files privacy task_class (err e) names = err e
  candidates_from files privacy task_class (ok policy) (err e) = err e
  candidates_from files privacy task_class (ok policy) (ok names) =
      eligible_providers fl policy (request_of files privacy task_class names)

  unfoldable pub candidates :
      Files → String → String → Result Policy.Error (List Provider × List Item)
  candidates files privacy task_class =
      candidates_from files privacy task_class files.policy files.secret_names

module _ (fl : Float) (py : Texts) (out : Outside) where
  abbrev pub Method : Type 0 → Type 0
  Method A = Exec World Error A

  abbrev pub forced : Option String → List Provider → List Provider
  forced none ps = ps
  forced (some pid) [] = []
  forced (some pid) (p ∷ ps) =
      let rest = forced (some pid) ps in
      if str_eq pid "" || is_text p.id pid then p ∷ rest else rest

  -- `BrokerError` and `KeyError` are noted; another exception ends the call.
  abbrev pub noted :
      Call
      → List Item
      → String
      → Provider
      → List (String × String)
      → (List (String × String) → Method Reply)
      → Result Failure String
      → Method Reply
  noted c items pid p failures next (ok text) = pure (record {
    provider = pid;
    model = out.api_model p;
    privacy = c.privacy;
    text = text;
    considered = items;
  })
  noted c items pid p failures next (err (other e)) = raise (unexpected e)
  noted c items pid p failures next (err f) =
      let failures' = failures ++ (pid, category py f) ∷ [] in
      if str_eq c.privacy "local-only" then raise (exhausted failures') else next failures'

  -- A request to a provider, with its outcome as a value.
  unfoldable pub try_invoke : String → Provider → Method (Result Failure String)
  try_invoke pid p w = let (r, t) = invoke out pid p w in (ok r, t)

  abbrev pub attempt_one :
      Call
      → List Item
      → Option String
      → Provider
      → List (String × String)
      → (List (String × String) → Method Reply)
      → Method Reply
  attempt_one c items none p failures next = raise missing_id
  attempt_one c items (some pid) p failures next = do
    r ← try_invoke pid p
    noted c items pid p failures next r

  unfoldable pub attempts : Call → List Item → List Provider → List (String × String) → Method Reply
  attempts c items [] failures = raise (exhausted failures)
  attempts c items (p ∷ ps) failures =
      attempt_one c items p.id p failures (λ failures'. attempts c items ps failures')

  abbrev pub with_candidates : Call → Result Policy.Error (List Provider × List Item) → Method Reply
  with_candidates c (err e) = raise (policy_failure e)
  with_candidates c (ok (ps, items)) =
      if is_empty (forced c.force_provider ps)
      then raise no_eligible
      else attempts c items (forced c.force_provider ps) []

  unfoldable pub generate : Files fl → Call → Method Reply
  generate files c = do
    raise_if (not (str_eq c.privacy "normal" || str_eq c.privacy "local-only")) unsupported_privacy
    raise_if
        (not (is_absent c.response_format)
          && (not (str_eq c.privacy "local-only") || not (is_structured c.response_format)))
        format_restricted
    raise_if (str_eq (py.strip c.prompt) "") prompt_required
    with_candidates c (candidates fl files c.privacy c.task_class)
