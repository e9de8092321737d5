-- ===== src/Broker/Tests.antt =====
-- Runs of the broker on a local and a cloud provider, and on the providers of governor/policy.json.
use mathlib.Core.Path.{subst}
use mathlib.Core.List.{Memᴰ}
use lifeos_platform.Prelude.{
  String, ◌≡◌, refl, sym, ap, ◌∙◌, arith, eq_refl, Bool, true, false, Option, none, some, List, [],
  ◌∷◌, str_eq,
}
use lifeos_platform.Prelude.Float.{whole}
use lifeos_platform.Prelude.Exec.{Result, ok, err, attempt, raise_if, ◌>>=◌}
use lifeos_platform.Prelude.Post.{Post}
use lifeos_platform.Router.Policy as Policy
use lifeos_platform.Router.Policy.{
  Provider, Policy, is_local, credentials, texts, cost_rank, listed, privacy_allowed,
  minimum_capability,
}
use lifeos_platform.Router.Eligible.{
  enumerate, key, key_lt, insert, sort, status, item, consider, eligible_providers,
}
use lifeos_platform.Broker.Failures.{
  Failure, broker_error, Texts, IsSafe, category, empty_category, category-IsSafe,
}
use lifeos_platform.Broker.Invoke.{
  Api, ollama, gemini, groq, openrouter, cloudflare, Outside, World, provider_model, post_json,
  request, invoke,
}
use lifeos_platform.Broker.Generate.{
  Call, plain, Reply, Error, no_eligible, exhausted, Files, candidates, try_invoke, attempts,
  generate,
}
use lifeos_platform.Broker.Local.{api_name}
use lifeos_platform.Broker.Private.{SentLocally, LocalIsOllama, generate-SentLocally}
use lifeos_platform.Broker.First.{IsServed, generate-IsServed}

abbrev provider : String → String → String → Bool → Provider
provider name privacy adapter private_only = record {
  id = some name;
  task_classes = "normal" ∷ [];
  cost = some privacy;
  adapter = some adapter;
  capability = some 2;
  priority = some 10;
  privacy = some privacy;
  private_only = private_only;
  credential = none;
  credentials = some (listed []);
  role = none;
}

abbrev policy_of : List Provider → Policy
policy_of ps = record {
  providers = ps;
  minimum_capability = λ t. some 1;
  allow_paid_fallback = false;
  max_attempts_per_provider = none;
  cooldown_seconds = none;
}

abbrev files_of : List Provider → Files whole
files_of ps = record { policy = ok (policy_of ps); secret_names = ok (λ name. false); now = 100 }

abbrev ours : List Provider
ours =
    provider "ollama" "local" "local-builder" false
    ∷ provider "gemini" "sanitized-cloud" "local-builder" false
    ∷ []

abbrev both : Files whole
both = files_of ours

-- The local provider alone is for private prompts, and the adapter of the other is not the broker's.
abbrev shipped : Files whole
shipped = files_of (
    provider "ollama" "local" "local-builder" true
    ∷ provider "codex" "sanitized-cloud" "codex" false
    ∷ [])

abbrev plain_texts : Texts
plain_texts = record {
  starts_with = λ s t. str_eq s t;
  mentions = λ s t. false;
  slice = λ s i j. s;
  length = λ s. 0;
  is_digit = λ s. false;
  int = λ s. 0;
  concat = λ s t. t;
  between = λ s t. s;
  strip = λ s. s;
}

-- The local provider fails, and the other answers.
abbrev answer_of : Api → Result Failure String
answer_of ollama = err (broker_error "provider request failed:")
answer_of _ = ok "text"

abbrev outside : Outside
outside = record {
  post = λ n api p. answer_of api;
  secrets = λ name. some "secret";
  api_model = λ p. "model";
}

abbrev start : World
start = record { calls = 0; sent = [] }

abbrev call_for : String → Call
call_for privacy = record {
  prompt = "hello";
  privacy = privacy;
  task_class = "normal";
  force_provider = none;
  response_format = plain;
}

abbrev outcome : Files whole → String → Result Error Reply × World
outcome files privacy = generate whole plain_texts outside files (call_for privacy) start

abbrev provider_of : Result Error Reply → Result Error String
provider_of (ok reply) = ok reply.provider
provider_of (err e) = err e

falls_back : provider_of (outcome both "normal").0 ≡ ok "gemini"
unfolding generate candidates eligible_providers consider item status enumerate credentials texts
    privacy_allowed minimum_capability sort insert key key_lt cost_rank attempts try_invoke invoke
    request provider_model post_json attempt ◌>>=◌ raise_if category empty_category
falls_back = refl

stays_local : (outcome both "local-only").0 ≡ err (exhausted (("ollama", "REQUEST_FAILED") ∷ []))
unfolding generate candidates eligible_providers consider item status enumerate credentials texts
    privacy_allowed minimum_capability sort insert key key_lt cost_rank attempts try_invoke invoke
    request provider_model post_json attempt ◌>>=◌ raise_if category empty_category
stays_local = refl

-- With the providers of the repository no normal prompt is served.
serves_nobody : (outcome shipped "normal").0 ≡ err no_eligible
unfolding generate candidates eligible_providers consider item status enumerate credentials texts
    privacy_allowed minimum_capability sort insert key key_lt cost_rank attempts try_invoke invoke
    request provider_model post_json attempt ◌>>=◌ raise_if category empty_category
serves_nobody = refl

abbrev reply_or : Reply → Result Error Reply → Reply
reply_or d (ok reply) = reply
reply_or d (err e) = d

abbrev no_reply : Reply
no_reply = record { provider = ""; model = ""; privacy = ""; text = ""; considered = [] }

abbrev served : Reply
served = reply_or no_reply (outcome both "normal").0

returned : outcome both "normal" ≡ (ok served, (outcome both "normal").1)
unfolding generate candidates eligible_providers consider item status enumerate credentials texts
    privacy_allowed minimum_capability sort insert key key_lt cost_rank attempts try_invoke invoke
    request provider_model post_json attempt ◌>>=◌ raise_if category empty_category
returned = refl

generate-IsServed_example :
    IsServed whole plain_texts outside
      (call_for "normal")
      both
      start
      served
      (outcome both "normal").1
generate-IsServed_example =
    generate-IsServed whole plain_texts outside both (call_for "normal") start
      (outcome both "normal").1 served returned

name_of_ollama : (api : Api) → str_eq (api_name api) "ollama" ≡ true → api ≡ ollama
name_of_ollama ollama h = refl
name_of_ollama gemini h = absurd (ground arith)
name_of_ollama groq h = absurd (ground arith)
name_of_ollama openrouter h = absurd (ground arith)
name_of_ollama cloudflare h = absurd (ground arith)

abbrev named_by : Option String → String → Bool
named_by none name = false
named_by (some t) name = str_eq name t

both-LocalIsOllama : LocalIsOllama (policy_of ours)
both-LocalIsOllama = record { own = λ p api m l e. by p api m l e }
  where
    by :
        (p : Provider) (api : Api)
        → Memᴰ p ours
        → is_local p ≡ true
        → p.id ≡ some (api_name api)
        → api ≡ ollama
    by p api (Memᴰ.head same) l e =
        let named : some "ollama" ≡ some (api_name api) = sym (ap Provider.id same) ∙ e in
        name_of_ollama api (ap (λ o. named_by o (api_name api)) named ∙ eq_refl (api_name api))
    by p api (Memᴰ.tail (Memᴰ.head same)) l e =
        let wrong : false ≡ true = sym (ap is_local same) ∙ l in absurd (ground arith)
    by p api (Memᴰ.tail (Memᴰ.tail m)) l e = elim m [ ]

abbrev policy_or : Policy → Result Policy.Error Policy → Policy
policy_or d (ok policy) = policy
policy_or d (err e) = d

both_declared : (policy : Policy) → both.policy ≡ ok policy → LocalIsOllama policy
both_declared policy e = subst LocalIsOllama (ap (policy_or (policy_of ours)) e) both-LocalIsOllama

generate-SentLocally_example :
    Post
      (λ (_ : Reply) t. SentLocally [] t)
      (λ t. SentLocally [] t)
      (generate whole plain_texts outside both (call_for "local-only") start)
generate-SentLocally_example =
    generate-SentLocally whole plain_texts outside both (call_for "local-only") start
      (λ policy e. both_declared policy e) refl

-- An entry of the policy that is declared local and bears the identifier of a cloud API gets a
-- local-only prompt, and hands it to that API.
abbrev misdeclared : Files whole
misdeclared = files_of (provider "gemini" "local" "local-builder" false ∷ [])

leaves_the_house :
    (outcome misdeclared "local-only").1.sent
    ≡ (gemini, provider "gemini" "local" "local-builder" false) ∷ []
unfolding generate candidates eligible_providers consider item status enumerate credentials texts
    privacy_allowed minimum_capability sort insert key key_lt cost_rank attempts try_invoke invoke
    request provider_model post_json attempt ◌>>=◌ raise_if category empty_category
leaves_the_house = refl

category-IsSafe_example :
    IsSafe plain_texts (category plain_texts (broker_error "provider HTTP 500: no"))
category-IsSafe_example = category-IsSafe plain_texts (broker_error "provider HTTP 500: no")
