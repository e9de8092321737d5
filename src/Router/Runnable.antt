-- ===== src/Router/Runnable.antt =====
-- Which providers engineer/provider_router.py finds eligible.
use mathlib.Core.Path.{subst}
use lifeos_platform.Prelude.{
  ◌≤◌, String, ◌≡◌, refl, ◌⊎◌, Bool, true, false, not, some, List, [], ◌∷◌, arith, contains, str_eq,
  any,
}
use lifeos_platform.Prelude.Float.{Float}
use lifeos_platform.Prelude.Exec.{ok}
use lifeos_platform.Router.Policy.{
  Provider, Policy, credentials, minimum_capability, privacy_allowed, or_text,
}
use lifeos_platform.Router.Eligible.{
  cost_of, capability_of, Request, has_adapter, or_zero, status, is_available,
}

abbrev pub HasAll : (String → Bool) → List String → Type 0
HasAll names [] = Unit
HasAll names (x ∷ xs) = (names x ≡ true) × HasAll names xs

HasAll-any : (f : String → Bool) (xs : List String) → any (λ x. not (f x)) xs ≡ false → HasAll f xs
HasAll-any f [] h = tt
HasAll-any f (x ∷ xs) h = (ground arith, HasAll-any f xs (ground arith))

any-HasAll : (f : String → Bool) (xs : List String) → HasAll f xs → any (λ x. not (f x)) xs ≡ false
any-HasAll f [] h = refl
any-HasAll f (x ∷ xs) (h, hs) = let rest = any-HasAll f xs hs in ground arith

module _ (fl : Float) where
  -- The provider can do the task within the policy.
  pub record IsRunnable (policy : Policy) (q : Request fl) (p : Provider) : Type 0 where
    pub pid : String
    pub needed : List String
    pub named : p.id ≡ some pid
    pub valid : credentials p.credentials p.credential ≡ ok needed
    pub serves : contains p.task_classes q.task_class ≡ true
    pub private : privacy_allowed p q.privacy ≡ true
    pub capable : minimum_capability policy q.task_class ≤ capability_of p
    pub affordable : (str_eq (cost_of p) "paid" ≡ false) ⊎ (policy.allow_paid_fallback ≡ true)
    pub adapted : has_adapter fl q.available_adapters (or_text p.adapter pid) ≡ true
    pub provided : HasAll q.secret_names needed
    pub ready : fl.lt q.now (or_zero fl (q.cooldowns pid)) ≡ false

  module _ (policy : Policy) (q : Request fl) where
    pub status-IsRunnable :
        (p : Provider) (pid : String) (names : List String)
        → p.id ≡ some pid
        → credentials p.credentials p.credential ≡ ok names
        → contains p.task_classes q.task_class ≡ true
        → is_available fl (status fl policy q p pid names) ≡ true
        → IsRunnable policy q p
    unfolding status
    status-IsRunnable p pid names e v c h = record {
      pid = pid;
      needed = names;
      named = e;
      valid = v;
      serves = c;
      private = ground arith;
      capable = ground arith;
      affordable = ground arith;
      adapted = ground arith;
      provided = HasAll-any q.secret_names names (ground arith);
      ready = ground arith;
    }

    pub IsRunnable-status :
        (p : Provider) (pid : String) (names : List String)
        → p.id ≡ some pid
        → credentials p.credentials p.credential ≡ ok names
        → IsRunnable policy q p
        → is_available fl (status fl policy q p pid names) ≡ true
    unfolding status
    IsRunnable-status p pid names e v r =
        let same : r.pid ≡ pid = ground (arith, r.named) in
        let listed : r.needed ≡ names = ground (arith, r.valid) in
        let provided : any (λ x. not (q.secret_names x)) names ≡ false =
          any-HasAll q.secret_names names (subst (HasAll q.secret_names) listed r.provided) in
        ground (arith, provided, same, r.private, r.capable, r.affordable, r.adapted, r.ready)
