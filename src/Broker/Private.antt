-- ===== src/Broker/Private.antt =====
-- Where governor/ai_broker.py sends a prompt that may only be handled locally.
use mathlib.Core.Path.{subst}
use mathlib.Core.List.{Memᴰ}
use lifeos_platform.Prelude.{
  String, ◌≡◌, refl, ap, ◌∙◌, ◌⊎◌, inl, inr, Bool, true, false, ◌||◌, Option, none, some, List, [],
  ◌∷◌, arith, str_eq, is_text, is_empty, if◌then◌else◌,
}
use lifeos_platform.Prelude.Float.{Float}
use lifeos_platform.Prelude.Exec.{Result, ok, err, raise}
use lifeos_platform.Prelude.Post.{
  Post, After, >>=-Post, guard-Post, if-Post, pure-Post, raise-Post, Post-weaken,
}
use lifeos_platform.Router.Policy as Policy
use lifeos_platform.Router.Policy.{Provider, Policy, is_local}
use lifeos_platform.Router.Eligible.{Item}
use lifeos_platform.Router.Cheapest.{eligible_providers-is_local, eligible_providers-listed}
use lifeos_platform.Broker.Failures.{Failure, broker_error, key_error, other, Texts}
use lifeos_platform.Broker.Invoke.{Api, ollama, Outside, World, invoke}
use lifeos_platform.Broker.Local.{api_name, Sent, Asked, invoke-Asks}
use lifeos_platform.Broker.Generate.{
  Call, Error, no_eligible, Reply, Files, candidates_from, candidates, Method, forced, noted,
  attempt_one, try_invoke, attempts, with_candidates, generate,
}

-- At most two requests were sent, both to Ollama, for one provider that is declared local or
-- deterministic.
abbrev pub SentLocally : List (Api × Provider) → World → Type 0
SentLocally before t =
    (t.sent ≡ before) ⊎ ((p : Provider) × (is_local p ≡ true) × Sent ollama before p t)

-- No provider that is declared local or deterministic bears the identifier of a cloud API.
pub record LocalIsOllama (policy : Policy) : Type 0 where
  pub own :
      (p : Provider) (api : Api)
      → Memᴰ p policy.providers
      → is_local p ≡ true
      → p.id ≡ some (api_name api)
      → api ≡ ollama

record IsPrivate (p : Provider) : Type 0 where
  local : is_local p ≡ true
  own : (api : Api) → p.id ≡ some (api_name api) → api ≡ ollama

candidates-IsPrivate :
    (fl : Float) (files : Files fl) (privacy task_class : String) (ps : List Provider)
    (items : List Item) (p : Provider)
    → ((policy : Policy) → files.policy ≡ ok policy → LocalIsOllama policy)
    → str_eq privacy "local-only" ≡ true
    → candidates fl files privacy task_class ≡ ok (ps, items)
    → Memᴰ p ps
    → IsPrivate p
unfolding candidates
candidates-IsPrivate fl files privacy task_class ps items p declared l e m =
    by files.policy files.secret_names refl e
  where
    by :
        (r : Result Policy.Error Policy) (names : Result Policy.Error (String → Bool))
        → files.policy ≡ r
        → candidates_from fl files privacy task_class r names ≡ ok (ps, items)
        → IsPrivate p
    by (err x) names f h = absurd (ground arith)
    by (ok policy) (err x) f h = absurd (ground arith)
    by (ok policy) (ok names) f h =
        let local = eligible_providers-is_local fl policy _ ps items p l h m in
        let place = eligible_providers-listed fl policy _ ps items p h m in
        record { local = local; own = λ api e. (declared policy f).own p api place local e }

module _ (fl : Float) (py : Texts) (out : Outside) where
  Memᴰ-forced :
      (o : Option String) (p : Provider) (ps : List Provider)
      → Memᴰ p (forced fl py out o ps)
      → Memᴰ p ps
  Memᴰ-forced none p ps m = m
  Memᴰ-forced (some pid) p [] m = m
  Memᴰ-forced (some pid) p (q ∷ ps) m =
      by (str_eq pid "" || is_text q.id pid) (forced fl py out (some pid) ps)
        (Memᴰ-forced (some pid) p ps) m
    where
      by :
          (b : Bool) (rest : List Provider)
          → (Memᴰ p rest → Memᴰ p ps)
          → Memᴰ p (if b then q ∷ rest else rest)
          → Memᴰ p (q ∷ ps)
      by true rest h (Memᴰ.head e) = Memᴰ.head e
      by true rest h (Memᴰ.tail k) = Memᴰ.tail (h k)
      by false rest h k = Memᴰ.tail (h k)

  module _ (c : Call) (local : str_eq c.privacy "local-only" ≡ true) where
    abbrev Local : List (Api × Provider) → Result Error Reply × World → Type 0
    Local before r = Post (λ (_ : Reply) t. SentLocally before t) (λ t. SentLocally before t) r

    try_invoke-Asked :
        (pid : String) (p : Provider) (w : World)
        → Post
            (λ (_ : Result Failure String) t. Asked pid w.sent p t)
            (λ _. ⊥)
            (try_invoke fl py out pid p w)
    unfolding try_invoke
    try_invoke-Asked pid p w = record {
      holds = by (invoke out pid p w) (invoke-Asks out p w pid).holds;
    }
      where
        by :
            (r : Result Failure String × World)
            → After (λ (_ : String) t. Asked pid w.sent p t) (λ t. Asked pid w.sent p t) r
            → Asked pid w.sent p r.1
        by (ok a, t) h = h
        by (err e, t) h = h

    Asked-SentLocally :
        (pid : String) (p : Provider) (before : List (Api × Provider)) (t : World)
        → p.id ≡ some pid
        → IsPrivate p
        → Asked pid before p t
        → SentLocally before t
    Asked-SentLocally pid p before t i h (inl e) = inl e
    Asked-SentLocally pid p before t i h (inr (api, name, s)) =
        let same = h.own api (i ∙ ap some name) in
        inr (p, h.local, subst (λ a. Sent a before p t) same s)

    -- After its first provider, the call ends.
    noted-Local :
        (items : List Item) (pid : String) (p : Provider) (failures : List (String × String))
        (next : List (String × String) → Method fl py out Reply) (r : Result Failure String)
        (before : List (Api × Provider)) (t : World)
        → SentLocally before t
        → Local before (noted fl py out c items pid p failures next r t)
    noted-Local items pid p failures next (ok text) before t h = pure-Post _ t h
    noted-Local items pid p failures next (err (other e)) before t h = raise-Post _ t h
    noted-Local items pid p failures next (err key_error) before t h = rw local (raise-Post _ t h)
    noted-Local items pid p failures next (err (broker_error e)) before t h =
        rw local (raise-Post _ t h)

    attempts-Local :
        (items : List Item) (ps : List Provider) (failures : List (String × String)) (w : World)
        → ((p : Provider) → Memᴰ p ps → IsPrivate p)
        → Local w.sent (attempts fl py out c items ps failures w)
    unfolding attempts
    attempts-Local items [] failures w h = raise-Post _ w (inl refl)
    attempts-Local items (p ∷ ps) failures w h = by p.id refl
      where
        by :
            (o : Option String)
            → p.id ≡ o
            → Local w.sent (
                attempt_one fl py out c items o p failures (λ f. attempts fl py out c items ps f) w)
        by none i = raise-Post _ w (inl refl)
        by (some pid) i =
            >>=-Post _ _ w (Post-weaken (try_invoke-Asked pid p w) (λ r t s. s) λ t k. absurd k)
              λ r t s.
                noted-Local items pid p failures (λ f. attempts fl py out c items ps f) r w.sent t
                  (Asked-SentLocally pid p w.sent t i (h p (Memᴰ.head refl)) s)

    with_candidates-Local :
        (r : Result Policy.Error (List Provider × List Item)) (w : World)
        → ((ps : List Provider) (items : List Item) (p : Provider)
            → r ≡ ok (ps, items)
            → Memᴰ p ps
            → IsPrivate p)
        → Local w.sent (with_candidates fl py out c r w)
    with_candidates-Local (err e) w h = raise-Post _ w (inl refl)
    with_candidates-Local (ok (ps, items)) w h =
        if-Post (is_empty (forced fl py out c.force_provider ps)) (raise no_eligible)
          (attempts fl py out c items (forced fl py out c.force_provider ps) []) w
          (λ _. raise-Post _ w (inl refl))
          λ _.
            attempts-Local items (forced fl py out c.force_provider ps) [] w
              λ p m. h ps items p refl (Memᴰ-forced c.force_provider p ps m)

  -- For a prompt that may only be handled locally, where no provider that the policy declares local
  -- or deterministic bears the identifier of a cloud API, whatever else is configured and whatever the
  -- providers answer, and also where the call raises: at most two requests are sent, both to Ollama,
  -- for one provider that is declared local or deterministic.
  pub generate-SentLocally :
      (files : Files fl) (c : Call) (w : World)
      → ((policy : Policy) → files.policy ≡ ok policy → LocalIsOllama policy)
      → str_eq c.privacy "local-only" ≡ true
      → Post
          (λ (_ : Reply) t. SentLocally w.sent t)
          (λ t. SentLocally w.sent t)
          (generate fl py out files c w)
  unfolding generate
  generate-SentLocally files c w declared local = guard-Post _ _ _ w (inl refl) λ _.
      guard-Post _ _ _ w (inl refl) λ _. guard-Post _ _ _ w (inl refl) λ _.
        with_candidates-Local c local (candidates fl files c.privacy c.task_class) w
          λ ps items p e m.
            candidates-IsPrivate fl files c.privacy c.task_class ps items p declared local e m
