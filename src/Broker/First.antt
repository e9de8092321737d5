-- ===== src/Broker/First.antt =====
-- Which provider answers for governor/ai_broker.py.
use lifeos_platform.Prelude.{
  String, ◌≡◌, refl, ap, Bool, true, false, Option, none, some, List, [], ◌∷◌, ◌++◌, arith, str_eq,
  is_empty, if◌then◌else◌,
}
use lifeos_platform.Prelude.Float.{Float}
use lifeos_platform.Prelude.Exec.{Result, ok, err, raise}
use lifeos_platform.Prelude.Post.{
  Post, >>=-Post, guard-Post, if-Post, pure-Post, raise-Post, Post-weaken, Post_ok,
}
use lifeos_platform.Router.Policy as Policy
use lifeos_platform.Router.Policy.{Provider}
use lifeos_platform.Router.Eligible.{Item}
use lifeos_platform.Broker.Failures.{Failure, broker_error, key_error, other, Texts}
use lifeos_platform.Broker.Invoke.{Outside, World, invoke}
use lifeos_platform.Broker.Generate.{
  Call, Error, no_eligible, exhausted, Reply, Files, candidates, Method, forced, noted, attempt_one,
  try_invoke, attempts, with_candidates, generate,
}

abbrev pub Recoverable : Failure → Type 0
Recoverable (broker_error e) = Unit {0}
Recoverable key_error = Unit {0}
Recoverable (other e) = ⊥

module _ (out : Outside) where
  -- Each of the providers was asked in turn, and failed.
  pub data Failed : List Provider → World → World → Type 0 where
    nobody : (w : World) → Failed [] w w
    then_next :
        {p : Provider} {ps : List Provider} {w v u : World} (pid : String) (f : Failure)
        → p.id ≡ some pid
        → Recoverable f
        → invoke out pid p w ≡ (err f, v)
        → Failed ps v u
        → Failed (p ∷ ps) w u

  -- The reply is the one of the first of the providers that did not fail.
  pub record IsFirst (c : Call) (ps : List Provider) (w : World) (reply : Reply) (t : World)
      : Type 0 where
    pub before : List Provider
    pub provider : Provider
    pub after : List Provider
    pub asked : World
    pub listed : ps ≡ before ++ provider ∷ after
    pub failed : Failed before w asked
    pub named : provider.id ≡ some reply.provider
    pub answered : invoke out reply.provider provider asked ≡ (ok reply.text, t)
    pub alone : str_eq c.privacy "local-only" ≡ true → before ≡ []

  next-IsFirst :
      (c : Call) (p : Provider) (ps : List Provider) (w v t : World) (reply : Reply) (pid : String)
      (f : Failure)
      → p.id ≡ some pid
      → Recoverable f
      → invoke out pid p w ≡ (err f, v)
      → str_eq c.privacy "local-only" ≡ false
      → IsFirst c ps v reply t
      → IsFirst c (p ∷ ps) w reply t
  next-IsFirst c p ps w v t reply pid f e r h n i = record {
    before = p ∷ i.before;
    provider = i.provider;
    after = i.after;
    asked = i.asked;
    listed = ap {B = List Provider} (λ qs. p ∷ qs) i.listed;
    failed = then_next pid f e r h i.failed;
    named = i.named;
    answered = i.answered;
    alone = λ l. absurd (ground arith);
  }

module _ (fl : Float) (py : Texts) (out : Outside) (c : Call) where
  abbrev Firsts : List Provider → World → Result Error Reply × World → Type 0
  Firsts ps w r = Post (λ reply t. IsFirst out c ps w reply t) (λ _. Unit {0}) r

  try_invoke-invoke :
      (pid : String) (p : Provider) (w : World)
      → Post
          (λ (r : Result Failure String) t. invoke out pid p w ≡ (r, t))
          (λ _. Unit {0})
          (try_invoke fl py out pid p w)
  unfolding try_invoke
  try_invoke-invoke pid p w = record { holds = refl }

  module _ (items : List Item) (p : Provider) (ps : List Provider) (w : World) (pid : String)
      (named : p.id ≡ some pid) where
    retried :
        (failures : List (String × String)) (next : List (String × String) → Method fl py out Reply)
        (f : Failure) (v : World)
        → Recoverable f
        → invoke out pid p w ≡ (err f, v)
        → ((fs : List (String × String)) → Firsts ps v (next fs v))
        → (local : Bool) → str_eq c.privacy "local-only" ≡ local
        → Firsts (p ∷ ps) w ((if local then raise (exhausted failures) else next failures) v)
    retried failures next f v r h k true l = raise-Post _ v tt
    retried failures next f v r h k false l =
        Post-weaken (k failures)
          (λ reply t i. next-IsFirst out c p ps w v t reply pid f named r h l i) λ t i. i

    noted-Firsts :
        (failures : List (String × String)) (next : List (String × String) → Method fl py out Reply)
        (r : Result Failure String) (v : World)
        → invoke out pid p w ≡ (r, v)
        → ((fs : List (String × String)) → Firsts ps v (next fs v))
        → Firsts (p ∷ ps) w (noted fl py out c items pid p failures next r v)
    noted-Firsts failures next (ok text) v h k = pure-Post _ v (record {
      before = [];
      provider = p;
      after = ps;
      asked = w;
      listed = refl;
      failed = nobody w;
      named = named;
      answered = h;
      alone = λ _. refl;
    })
    noted-Firsts failures next (err (other e)) v h k = raise-Post _ v tt
    noted-Firsts failures next (err key_error) v h k =
        retried _ next key_error v tt h k (str_eq c.privacy "local-only") refl
    noted-Firsts failures next (err (broker_error e)) v h k =
        retried _ next (broker_error e) v tt h k (str_eq c.privacy "local-only") refl

  attempts-IsFirst :
      (items : List Item) (ps : List Provider) (failures : List (String × String)) (w : World)
      → Firsts ps w (attempts fl py out c items ps failures w)
  unfolding attempts
  attempts-IsFirst items [] failures w = raise-Post _ w tt
  attempts-IsFirst items (p ∷ ps) failures w = by (λ fs v. attempts-IsFirst items ps fs v) p.id refl
    where
      by :
          ((fs : List (String × String)) (v : World)
            → Firsts ps v (attempts fl py out c items ps fs v))
          → (o : Option String) → p.id ≡ o
          → Firsts
              (p ∷ ps)
              w
              (attempt_one fl py out c items o p failures (λ f. attempts fl py out c items ps f) w)
      by rest none e = raise-Post _ w tt
      by rest (some pid) e = >>=-Post _ _ w (try_invoke-invoke pid p w) λ r v h.
          noted-Firsts items p ps w pid e failures (λ f. attempts fl py out c items ps f) r v h
            λ fs. rest fs v

  -- The reply comes from the first that did not fail of the eligible, and perhaps forced, providers.
  pub record IsServed (files : Files fl) (w : World) (reply : Reply) (t : World) : Type 0 where
    pub eligible : List Provider
    pub items : List Item
    pub found : candidates fl files c.privacy c.task_class ≡ ok (eligible, items)
    pub first : IsFirst out c (forced fl py out c.force_provider eligible) w reply t

  with_candidates-IsServed :
      (files : Files fl) (w : World) (r : Result Policy.Error (List Provider × List Item))
      → candidates fl files c.privacy c.task_class ≡ r
      → Post (λ reply t. IsServed files w reply t) (λ _. Unit {0}) (with_candidates fl py out c r w)
  with_candidates-IsServed files w (err e) h = raise-Post _ w tt
  with_candidates-IsServed files w (ok (ps, items)) h =
      if-Post (is_empty (forced fl py out c.force_provider ps)) (raise no_eligible)
        (attempts fl py out c items (forced fl py out c.force_provider ps) []) w
        (λ _. raise-Post _ w tt)
        λ _.
          Post-weaken (attempts-IsFirst items (forced fl py out c.force_provider ps) [] w)
            (λ reply t i. record { eligible = ps; items = items; found = h; first = i }) λ t i. i

generate-Post :
    (fl : Float) (py : Texts) (out : Outside) (files : Files fl) (c : Call) (w : World)
    → Post
        (λ reply t. IsServed fl py out c files w reply t)
        (λ _. Unit {0})
        (generate fl py out files c w)
unfolding generate
generate-Post fl py out files c w = guard-Post _ _ _ w tt λ _. guard-Post _ _ _ w tt λ _.
    guard-Post _ _ _ w tt λ _.
      with_candidates-IsServed fl py out c files w (candidates fl files c.privacy c.task_class) refl

-- Where `generate` returns, its reply is the one of the first of the eligible providers, restricted to
-- the forced one, that did not fail with an error of the broker or a missing key; all before it were
-- asked in turn and failed so, and for a local-only prompt there is none before it.
pub generate-IsServed :
    (fl : Float) (py : Texts) (out : Outside) (files : Files fl) (c : Call) (w t : World)
    (reply : Reply)
    → generate fl py out files c w ≡ (ok reply, t)
    → IsServed fl py out c files w reply t
generate-IsServed fl py out files c w t reply e = Post_ok (generate-Post fl py out files c w) e
