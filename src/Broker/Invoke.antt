-- ===== src/Broker/Invoke.antt =====
-- governor/ai_broker.py: `_invoke`, a request to one provider.
use lifeos_platform.Prelude.{ℕ, suc, String, Option, none, some, List, ◌∷◌, str_eq, if◌then◌else◌}
use lifeos_platform.Prelude.Exec.{Result, ok, err, Exec, raise, pure, attempt, ◌>>=◌, ◌>>◌}
use lifeos_platform.Router.Policy.{Provider}
use lifeos_platform.Broker.Failures.{Failure, broker_error, key_error, other}

pub data Api : Type 0 where
  ollama gemini groq openrouter cloudflare : Api

abbrev pub api_of : String → Option Api
api_of pid =
    if str_eq pid "ollama"
    then some ollama
    else if str_eq pid "gemini"
    then some gemini
    else if str_eq pid "groq"
    then some groq
    else if str_eq pid "openrouter"
    then some openrouter
    else if str_eq pid "cloudflare"
    then some cloudflare
    else none

-- The providers' answers to the n-th request, and the keys of the secrets file and of the policy that
-- the router does not read; `api_model` is empty where it is missing. The text of an answer is
-- stripped, and an empty one is a `BrokerError`.
pub record Outside : Type 0 where
  pub post : ℕ → Api → Provider → Result Failure String
  pub secrets : String → Option String
  pub api_model : Provider → String

-- The requests that were sent, the newest first: to which API, for which entry of the policy.
pub record World : Type 0 where
  pub calls : ℕ
  pub sent : List (Api × Provider)

abbrev pub Method : Type 0 → Type 0
Method A = Exec World Failure A

module _ (out : Outside) where
  unfoldable pub provider_model : Provider → Method String
  provider_model p =
      if str_eq (out.api_model p) ""
      then raise (broker_error "provider has no api_model")
      else pure (out.api_model p)

  abbrev pub found : Option String → Method String
  found none = raise key_error
  found (some value) = pure value

  unfoldable pub post_json : Api → Provider → Method String
  post_json api p w =
      (out.post w.calls api p, record { calls = suc w.calls; sent = (api, p) ∷ w.sent })

  -- An answer that is empty, and says no more, is asked for once again.
  abbrev pub again : Provider → Result Failure String → Method String
  again p (ok text) = pure text
  again p (err (broker_error text)) =
      if str_eq text "ollama returned empty response"
      then post_json ollama p
      else raise (broker_error text)
  again p (err key_error) = raise key_error
  again p (err (other e)) = raise (other e)

  -- The models and the secrets are looked up before the request, in the source's order.
  unfoldable pub request : Api → Provider → Method String
  request ollama p = do provider_model p; answer ← attempt (post_json ollama p); again p answer
  request gemini p = do provider_model p; found (out.secrets "GEMINI_API_KEY"); post_json gemini p
  request groq p = do provider_model p; found (out.secrets "GROQ_API_KEY"); post_json groq p
  request openrouter p = do
    provider_model p
    found (out.secrets "OPENROUTER_API_KEY")
    post_json openrouter p
  request cloudflare p = do
    found (out.secrets "CLOUDFLARE_ACCOUNT_ID")
    provider_model p
    found (out.secrets "CLOUDFLARE_API_TOKEN")
    post_json cloudflare p

  abbrev pub request_by : Option Api → Provider → Method String
  request_by none p = raise (broker_error "provider is not a direct inference provider")
  request_by (some api) p = request api p

  unfoldable pub invoke : String → Provider → Method String
  invoke pid p = request_by (api_of pid) p
