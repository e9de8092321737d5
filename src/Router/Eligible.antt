-- ===== src/Router/Eligible.antt =====
-- engineer/provider_router.py: `eligible_providers` and `route`.
use lifeos_platform.Prelude.{
  ℕ, suc, String, Bool, true, false, ◌&&◌, ◌||◌, not, Option, none, some, List, [], ◌∷◌, ltb,
  str_eq, any, contains, map, ◌==◌, if◌then◌else◌,
}
use lifeos_platform.Prelude.Float.{Float}
use lifeos_platform.Prelude.Exec.{Result, ok, err}
use lifeos_platform.Router.Policy.{
  Error, key_error, Provider, Policy, or_default, or_text, cost_rank, credentials,
  minimum_capability, privacy_allowed,
}

pub data Status : Type 0 where
  available privacy_forbidden capability_insufficient paid_forbidden : Status
  adapter_unavailable credential_required cooldown : Status

pub record Item : Type 0 where
  pub provider : String
  pub status : Status
  pub adapter : String
  pub capability : ℕ
  pub cost : String

-- A provider with its place in the policy, `_policy_index`.
pub record Candidate : Type 0 where
  pub index : ℕ
  pub provider : Provider

unfoldable pub enumerate : ℕ → List Provider → List Candidate
enumerate n [] = []
enumerate n (p ∷ ps) = record { index = n; provider = p } ∷ enumerate (suc n) ps

abbrev pub cost_of : Provider → String
cost_of p = or_text p.cost "paid"

abbrev pub capability_of : Provider → ℕ
capability_of p = or_default p.capability 1

-- The key of the sort; the capability counts downwards.
pub record Key : Type 0 where
  pub rank : ℕ
  pub priority : ℕ
  pub capability : ℕ
  pub index : ℕ

unfoldable pub key : Candidate → Key
key c = record {
  rank = cost_rank (cost_of c.provider);
  priority = or_default c.provider.priority 100;
  capability = capability_of c.provider;
  index = c.index;
}

unfoldable pub key_lt : Key → Key → Bool
key_lt a b =
    ltb a.rank b.rank
    || (a.rank == b.rank
        && (ltb a.priority b.priority
            || (a.priority == b.priority
                && (ltb b.capability a.capability
                    || (a.capability == b.capability && ltb a.index b.index)))))

-- A stable sort by the key.
unfoldable pub insert : Candidate → List Candidate → List Candidate
insert c [] = c ∷ []
insert c (d ∷ ds) =
    let rest = insert c ds in if key_lt (key d) (key c) then d ∷ rest else c ∷ d ∷ ds

unfoldable pub sort : List Candidate → List Candidate
sort [] = []
sort (c ∷ cs) = insert c (sort cs)

module _ (fl : Float) where
  open fl use {F, lt, of_ℕ}

  -- The arguments of `route` beside the policy; a set is its test of membership.
  pub record Request : Type 0 where
    pub task_class : String
    pub secret_names : String → Bool
    pub cooldowns : String → Option F
    pub now : F
    pub privacy : String
    pub available_adapters : Option (String → Bool)

  abbrev pub has_adapter : Option (String → Bool) → String → Bool
  has_adapter none adapter = true
  has_adapter (some adapters) adapter = adapters adapter

  abbrev pub or_zero : Option F → F
  or_zero none = of_ℕ 0
  or_zero (some x) = x

  unfoldable pub status : Policy → Request → Provider → String → List String → Status
  status policy q p pid needed_credentials =
      if not (privacy_allowed p q.privacy)
      then privacy_forbidden
      else if ltb (capability_of p) (minimum_capability policy q.task_class)
      then capability_insufficient
      else if str_eq (cost_of p) "paid" && not policy.allow_paid_fallback
      then paid_forbidden
      else if not (has_adapter q.available_adapters (or_text p.adapter pid))
      then adapter_unavailable
      else if any (λ name. not (q.secret_names name)) needed_credentials
      then credential_required
      else if lt q.now (or_zero (q.cooldowns pid))
      then cooldown
      else available

  -- `provider["id"]` is read before the credentials.
  unfoldable pub item :
      Policy → Request → Provider → Option String → Result Error (List String) → Result Error Item
  unfolding status
  item policy q p none names = err key_error
  item policy q p (some pid) (err e) = err e
  item policy q p (some pid) (ok names) = ok (record {
    provider = pid;
    status = status policy q p pid names;
    adapter = or_text p.adapter pid;
    capability = capability_of p;
    cost = cost_of p;
  })

  abbrev pub is_available : Status → Bool
  is_available available = true
  is_available _ = false

  abbrev pub join :
      Candidate
      → Result Error Item
      → Result Error (List Candidate × List Item)
      → Result Error (List Candidate × List Item)
  join c (err e) rest = err e
  join c (ok i) (err e) = err e
  join c (ok i) (ok (es, items)) = ok ((if is_available i.status then c ∷ es else es), i ∷ items)

  -- The loop over the providers.
  unfoldable pub consider :
      Policy → Request → List Candidate → Result Error (List Candidate × List Item)
  unfolding item
  consider policy q [] = ok ([], [])
  consider policy q (c ∷ cs) =
      let rest = consider policy q cs in
      let p = c.provider in
      if contains p.task_classes q.task_class
      then join c (item policy q p p.id (credentials p.credentials p.credential)) rest
      else rest

  abbrev pub finish :
      Result Error (List Candidate × List Item) → Result Error (List Provider × List Item)
  finish (err e) = err e
  finish (ok (es, items)) = ok (map (λ c. c.provider) (sort es), items)

  unfoldable pub eligible_providers : Policy → Request → Result Error (List Provider × List Item)
  unfolding consider
  eligible_providers policy q = finish (consider policy q (enumerate 0 policy.providers))

  pub record Decision : Type 0 where
    pub selected_provider : Option String
    pub selected_role : Option String
    pub selected_adapter : Option String
    pub task_class : String
    pub privacy : String
    pub considered : List Item
    pub fail_closed : Bool
    pub max_attempts : ℕ
    pub cooldown_seconds : ℕ

  -- The answer without a provider.
  abbrev pub closed : Policy → Request → List Item → Decision
  closed policy q items = record {
    selected_provider = none;
    selected_role = none;
    selected_adapter = none;
    task_class = q.task_class;
    privacy = q.privacy;
    considered = items;
    fail_closed = true;
    max_attempts = or_default policy.max_attempts_per_provider 1;
    cooldown_seconds = or_default policy.cooldown_seconds 900;
  }

  abbrev pub decide : Policy → Request → List Provider → List Item → Decision
  decide policy q [] items = closed policy q items
  decide policy q (selected ∷ _) items = record (closed policy q items) {
    selected_provider = selected.id;
    selected_role = selected.role;
    selected_adapter = selected.adapter;
    fail_closed = false;
  }

  abbrev pub route_of :
      Policy → Request → Result Error (List Provider × List Item) → Result Error Decision
  route_of policy q (err e) = err e
  route_of policy q (ok (providers, considered)) = ok (decide policy q providers considered)

  unfoldable pub route : Policy → Request → Result Error Decision
  unfolding eligible_providers
  route policy q = route_of policy q (eligible_providers policy q)
