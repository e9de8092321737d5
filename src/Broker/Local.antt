-- ===== src/Broker/Local.antt =====
-- The requests that `_invoke` of governor/ai_broker.py sends.
use mathlib.Core.Path.{subst}
use lifeos_platform.Prelude.{
  suc, String, ◌≡◌, refl, sym, ap, ◌⊎◌, inl, inr, ◌∙◌, arith, eq_iff, true, Bool-cases, Option,
  none, some, List, ◌∷◌, str_eq,
}
use lifeos_platform.Prelude.Exec.{Result, ok, err, raise, pure, ◌>>=◌}
use lifeos_platform.Prelude.Post.{
  Post, >>=-Post, if-Post, attempt-Post, pure-Post, raise-Post, Post-weaken,
}
use lifeos_platform.Router.Policy.{Provider}
use lifeos_platform.Broker.Failures.{Failure, broker_error, key_error, other}
use lifeos_platform.Broker.Invoke.{
  Api, ollama, gemini, groq, openrouter, cloudflare, api_of, Outside, World, Method, provider_model,
  found, post_json, again, request, request_by, invoke,
}

-- The identifier of an API's provider.
abbrev pub api_name : Api → String
api_name ollama = "ollama"
api_name gemini = "gemini"
api_name groq = "groq"
api_name openrouter = "openrouter"
api_name cloudflare = "cloudflare"

-- At most two requests were sent, both to the API for the provider.
abbrev pub Sent : Api → List (Api × Provider) → Provider → World → Type 0
Sent api before p t =
    (t.sent ≡ before) ⊎ ((t.sent ≡ (api, p) ∷ before) ⊎ (t.sent ≡ (api, p) ∷ (api, p) ∷ before))

-- Nothing was sent, or the identifier is that of the API that the requests went to.
abbrev pub Asked : String → List (Api × Provider) → Provider → World → Type 0
Asked pid before p t =
    (t.sent ≡ before) ⊎ ((api : Api) × (pid ≡ api_name api) × Sent api before p t)

api_of-name : (pid : String) (api : Api) → api_of pid ≡ some api → pid ≡ api_name api
api_of-name pid api h = elim (Bool-cases (str_eq pid "ollama")) [
  | inl y ↦ named "ollama" ollama y (ground arith) refl
  | inr a ↦ elim (Bool-cases (str_eq pid "gemini")) [
    | inl y ↦ named "gemini" gemini y (ground arith) refl
    | inr b ↦ elim (Bool-cases (str_eq pid "groq")) [
      | inl y ↦ named "groq" groq y (ground arith) refl
      | inr c ↦ elim (Bool-cases (str_eq pid "openrouter")) [
        | inl y ↦ named "openrouter" openrouter y (ground arith) refl
        | inr d ↦ elim (Bool-cases (str_eq pid "cloudflare")) [
          | inl y ↦ named "cloudflare" cloudflare y (ground arith) refl
          | inr e ↦ absurd (ground arith)
        ]
      ]
    ]
  ]
]
  where
    named :
        (name : String) (a : Api)
        → str_eq pid name ≡ true
        → a ≡ api
        → name ≡ api_name a
        → pid ≡ api_name api
    named name a y e k = (eq_iff pid name).0 y ∙ k ∙ ap api_name e

module _ (out : Outside) (p : Provider) where
  abbrev Keeps : {A : Type 0} → List (Api × Provider) → A → World → Type 0
  Keeps sent a t = t.sent ≡ sent

  post_json-Post :
      (api : Api) (w : World)
      → Post {E = Failure}
          (Keeps {A = String} ((api, p) ∷ w.sent))
          (λ t. t.sent ≡ (api, p) ∷ w.sent)
          (post_json out api p w)
  unfolding post_json
  post_json-Post api w = by (out.post w.calls api p)
    where
      by :
          (r : Result Failure String)
          → Post
              (Keeps {A = String} ((api, p) ∷ w.sent))
              (λ t. t.sent ≡ (api, p) ∷ w.sent)
              (r, record { calls = suc w.calls; sent = (api, p) ∷ w.sent })
      by (ok s) = record { holds = refl }
      by (err e) = record { holds = refl }

  provider_model-Post :
      (w : World)
      → Post {E = Failure} (λ (_ : String) t. t ≡ w) (λ t. t ≡ w) (provider_model out p w)
  unfolding provider_model
  provider_model-Post w =
      if-Post (str_eq (out.api_model p) "") (raise (broker_error "provider has no api_model"))
        (pure (out.api_model p)) w (λ _. raise-Post _ w refl) λ _. pure-Post _ w refl

  found-Post :
      (o : Option String) (w : World)
      → Post {E = Failure} (λ (_ : String) t. t ≡ w) (λ t. t ≡ w) (found out o w)
  found-Post none w = raise-Post _ w refl
  found-Post (some s) w = pure-Post _ w refl

  module _ (w : World) where
    abbrev Sends : Api → Result Failure String × World → Type 0
    Sends api r = Post (λ (_ : String) t. Sent api w.sent p t) (λ t. Sent api w.sent p t) r

    -- What leaves the world alone, and what follows it.
    after_same :
        {api : Api} (m : Method String) (k : String → Method String)
        → Post (λ (_ : String) t. t ≡ w) (λ t. t ≡ w) (m w)
        → ((a : String) → Sends api (k a w))
        → Sends api ((m >>= k) w)
    after_same {api} m k h s =
        >>=-Post m k w (Post-weaken h (λ a t e. e) λ t e. inl (ap World.sent e))
          λ a t e. subst (λ v. Sends api (k a v)) (sym e) (s a)

    post_json-Sends : (api : Api) → Sends api (post_json out api p w)
    post_json-Sends api =
        Post-weaken (post_json-Post api w) (λ a t e. inr (inl e)) λ t e. inr (inl e)

    again-Sends :
        (r : Result Failure String) (t : World)
        → t.sent ≡ (ollama, p) ∷ w.sent
        → Sends ollama (again out p r t)
    again-Sends (ok text) t e = pure-Post _ t (inr (inl e))
    again-Sends (err (broker_error text)) t e =
        if-Post (str_eq text "ollama returned empty response") (post_json out ollama p)
          (raise (broker_error text)) t
          (λ _.
            Post-weaken (post_json-Post ollama t)
              (λ a u f. inr (inr (rw f (ap (λ ps. (ollama, p) ∷ ps) e))))
              λ u f. inr (inr (rw f (ap (λ ps. (ollama, p) ∷ ps) e))))
          λ _. raise-Post _ t (inr (inl e))
    again-Sends (err key_error) t e = raise-Post _ t (inr (inl e))
    again-Sends (err (other x)) t e = raise-Post _ t (inr (inl e))

    request-Sends : (api : Api) → Sends api (request out api p w)
    unfolding request
    request-Sends ollama = after_same _ _ (provider_model-Post w) λ _.
        >>=-Post {Q' = λ _ t. t.sent ≡ (ollama, p) ∷ w.sent} _ _ w
          (Post-weaken (attempt-Post (post_json out ollama p) w (post_json-Post ollama w))
            (λ a t e. e) λ t e. inr (inl e))
          λ r t e. again-Sends r t e
    request-Sends gemini =
        after_same _ _ (provider_model-Post w)
          λ _. after_same _ _ (found-Post _ w) λ _. post_json-Sends gemini
    request-Sends groq =
        after_same _ _ (provider_model-Post w)
          λ _. after_same _ _ (found-Post _ w) λ _. post_json-Sends groq
    request-Sends openrouter =
        after_same _ _ (provider_model-Post w)
          λ _. after_same _ _ (found-Post _ w) λ _. post_json-Sends openrouter
    request-Sends cloudflare = after_same _ _ (found-Post _ w) λ _.
        after_same _ _ (provider_model-Post w)
          λ _. after_same _ _ (found-Post _ w) λ _. post_json-Sends cloudflare

    abbrev Asks : String → Result Failure String × World → Type 0
    Asks pid r = Post (λ (_ : String) t. Asked pid w.sent p t) (λ t. Asked pid w.sent p t) r

    request_by-Asks :
        (pid : String) (o : Option Api) → api_of pid ≡ o → Asks pid (request_by out o p w)
    request_by-Asks pid none e = raise-Post _ w (inl refl)
    request_by-Asks pid (some api) e =
        Post-weaken (request-Sends api) (λ a t h. inr (api, api_of-name pid api e, h))
          λ t h. inr (api, api_of-name pid api e, h)

    pub invoke-Asks : (pid : String) → Asks pid (invoke out pid p w)
    unfolding invoke
    invoke-Asks pid = request_by-Asks pid (api_of pid) refl
