-- ===== src/Router/Cheapest.antt =====
-- What `eligible_providers` and `route` of engineer/provider_router.py promise their callers.
use mathlib.Core.Path.{subst}
use mathlib.Core.List.{Memᴰ}
use mathlib.Core.List.Memᴰ as Memᴰ
use lifeos_platform.Prelude.{
  ℕ, suc, String, ◌≡◌, refl, sym, ap, ◌↔◌, ◌⊎◌, inl, inr, true, false, ◌||◌, Option, none, some,
  List, [], ◌∷◌, map, arith, str_eq, is_text,
}
use lifeos_platform.Prelude.Float.{Float}
use lifeos_platform.Prelude.Exec.{Result, ok, err}
use lifeos_platform.Router.Policy.{Error, Provider, Policy, is_local, or_text, privacy_allowed}
use lifeos_platform.Router.Eligible.{
  Candidate, Item, Request, enumerate, sort, consider, finish, eligible_providers, Decision, decide,
  route_of, route,
}
use lifeos_platform.Router.Sorting.{
  Precedes, Precedes-refl, PrecedesAll, IsSorted, sort-IsSorted, sort-Memᴰ, Memᴰ-sort,
}
use lifeos_platform.Router.Runnable.{IsRunnable}
use lifeos_platform.Router.Considered.{
  AllValid, consider-IsRunnable, consider-Memᴰ, consider_returns,
}

abbrev pub provider_of : Candidate → Provider
provider_of c = c.provider

abbrev pub listed : Policy → List Candidate
listed policy = enumerate 0 policy.providers

module _ (fl : Float) where
  -- These are the providers of the policy that can do the task, in the order of the key.
  pub record IsRanking (policy : Policy) (q : Request fl) (cs : List Candidate) : Type 0 where
    pub sorted : IsSorted cs
    pub exact :
        (c : Candidate) → Memᴰ c cs ↔ (Memᴰ c (listed policy) × IsRunnable fl policy q c.provider)

  ranking :
      (policy : Policy) (q : Request fl) (es : List Candidate) (items : List Item)
      → consider fl policy q (listed policy) ≡ ok (es, items)
      → IsRanking policy q (sort es)
  ranking policy q es items h = record {
    sorted = sort-IsSorted es;
    exact = λ c. (
      λ m. consider-IsRunnable fl policy q c (listed policy) es items h (Memᴰ-sort c es m),
      λ r. sort-Memᴰ c es (consider-Memᴰ fl policy q c (listed policy) es items h r.1 r.0),
    );
  }

  -- The providers that `eligible_providers` returns.
  pub record Ranked (policy : Policy) (q : Request fl)
      (r : Result Error (List Provider × List Item)) : Type 0 where
    pub candidates : List Candidate
    pub items : List Item
    pub returned : r ≡ ok (map provider_of candidates, items)
    pub ranking : IsRanking policy q candidates

-- Where the providers of the task have identifiers and well-formed credentials, the eligible
-- providers are returned: in the order of cost, priority, capability and place in the policy, and
-- exactly those of the policy that serve the task, are allowed, capable, affordable, adapted and
-- ready, and have their credentials.
pub eligible_providers-Ranked :
    (fl : Float) (policy : Policy) (q : Request fl)
    → AllValid q.task_class (listed policy)
    → Ranked fl policy q (eligible_providers fl policy q)
unfolding eligible_providers
eligible_providers-Ranked fl policy q v =
    let (es, items, h) = consider_returns fl policy q (listed policy) v in
    record {
      candidates = sort es;
      items = items;
      returned = ap (finish fl) h;
      ranking = ranking fl policy q es items h;
    }

module _ (fl : Float) where
  -- Nothing is selected since no provider of the policy can do the task, or one is that can, and
  -- that comes before all that can.
  pub record IsChosen (policy : Policy) (q : Request fl) (d : Decision fl) : Type 0 where
    pub candidate : Candidate
    pub place : Memᴰ candidate (listed policy)
    pub runs : IsRunnable fl policy q candidate.provider
    pub selected : d.selected_provider ≡ candidate.provider.id
    pub open_gate : d.fail_closed ≡ false
    pub first :
        (c : Candidate)
        → Memᴰ c (listed policy)
        → IsRunnable fl policy q c.provider
        → Precedes candidate c

  pub record IsClosed (policy : Policy) (q : Request fl) (d : Decision fl) : Type 0 where
    pub selected : d.selected_provider ≡ none
    pub closed_gate : d.fail_closed ≡ true
    pub idle : (c : Candidate) → Memᴰ c (listed policy) → ¬ IsRunnable fl policy q c.provider

  Precedes-Memᴰ :
      (c d : Candidate) (cs : List Candidate) → PrecedesAll c cs → Memᴰ d cs → Precedes c d
  Precedes-Memᴰ c d (x ∷ cs) (h, hs) (Memᴰ.head e) = subst (Precedes c) (sym e) h
  Precedes-Memᴰ c d (x ∷ cs) (h, hs) (Memᴰ.tail m) = Precedes-Memᴰ c d cs hs m
  Precedes-Memᴰ c d [] h m = elim m [ ]

  decide-IsChosen :
      (policy : Policy) (q : Request fl) (cs : List Candidate) (items : List Item)
      → IsRanking fl policy q cs
      → IsChosen policy q (decide fl policy q (map provider_of cs) items)
        ⊎ IsClosed policy q (decide fl policy q (map provider_of cs) items)
  decide-IsChosen policy q [] items r = inr (record {
    selected = refl;
    closed_gate = refl;
    idle = λ c m k. elim ((r.exact c).1 (m, k)) [ ];
  })
  decide-IsChosen policy q (c ∷ cs) items r =
      let (place, runs) = (r.exact c).0 (Memᴰ.head refl) in
      inl (record {
        candidate = c;
        place = place;
        runs = runs;
        selected = refl;
        open_gate = refl;
        first = λ d m k.
            Precedes-Memᴰ c d (c ∷ cs) (Precedes-refl c, r.sorted.0) ((r.exact d).1 (m, k));
      })

  pub record Routed (policy : Policy) (q : Request fl) (r : Result Error (Decision fl))
      : Type 0 where
    pub decision : Decision fl
    pub returned : r ≡ ok decision
    pub choice : IsChosen policy q decision ⊎ IsClosed policy q decision

-- Where the providers of the task have identifiers and well-formed credentials, `route` returns a
-- decision: a provider of the policy that can do the task and comes before all that can, with the
-- gate open, or no provider and a closed gate, and then no provider of the policy can do the task.
pub route-Routed :
    (fl : Float) (policy : Policy) (q : Request fl)
    → AllValid q.task_class (listed policy)
    → Routed fl policy q (route fl policy q)
unfolding route
route-Routed fl policy q v =
    let ranked = eligible_providers-Ranked fl policy q v in
    let cs = ranked.candidates in
    let items = ranked.items in
    record {
      decision = decide fl policy q (map provider_of cs) items;
      returned = ap (route_of fl policy q) ranked.returned;
      choice = decide-IsChosen fl policy q cs items ranked.ranking;
    }

allowed-is_local :
    (p : Provider) (privacy : String)
    → str_eq privacy "local-only" ≡ true
    → privacy_allowed p privacy ≡ true
    → is_local p ≡ true
unfolding privacy_allowed
allowed-is_local p privacy l h = by p.privacy (ground arith)
  where
    by :
        (o : Option String)
        → (str_eq (or_text o "sanitized-cloud") "local"
            || str_eq (or_text o "sanitized-cloud") "deterministic")
          ≡ true
        → (is_text o "local" || is_text o "deterministic") ≡ true
    by none h = h
    by (some t) h = h

of_enumerate :
    (c : Candidate) (n : ℕ) (ps : List Provider) → Memᴰ c (enumerate n ps) → Memᴰ c.provider ps
unfolding enumerate
of_enumerate c n [] m = elim m [ ]
of_enumerate c n (p ∷ ps) (Memᴰ.head e) = Memᴰ.head (ap provider_of e)
of_enumerate c n (p ∷ ps) (Memᴰ.tail m) = Memᴰ.tail (of_enumerate c (suc n) ps m)

-- What is returned is in the policy, and can do the task.
abbrev IsEligible : (fl : Float) → Policy → Request fl → Provider → Type 0
IsEligible fl policy q p = Memᴰ p policy.providers × IsRunnable fl policy q p

finish-IsEligible :
    (fl : Float) (policy : Policy) (q : Request fl) (p : Provider)
    (r : Result Error (List Candidate × List Item)) (ps : List Provider) (items : List Item)
    → consider fl policy q (listed policy) ≡ r
    → finish fl r ≡ ok (ps, items)
    → Memᴰ p ps
    → IsEligible fl policy q p
finish-IsEligible fl policy q p (err e) ps items g h m = absurd (ground arith)
finish-IsEligible fl policy q p (ok (es, items')) ps items g h m =
    let same : ps ≡ map provider_of (sort es) = ground arith in
    let (c, place, e) = Memᴰ.of_map provider_of (sort es) (subst (Memᴰ p) same m) in
    let (at, runs) = ((ranking fl policy q es items' g).exact c).0 place in
    subst (IsEligible fl policy q) e (of_enumerate c 0 policy.providers at, runs)

pub eligible_providers-listed :
    (fl : Float) (policy : Policy) (q : Request fl) (ps : List Provider) (items : List Item)
    (p : Provider)
    → eligible_providers fl policy q ≡ ok (ps, items)
    → Memᴰ p ps
    → Memᴰ p policy.providers
unfolding eligible_providers
eligible_providers-listed fl policy q ps items p h m =
    (finish-IsEligible fl policy q p (consider fl policy q (listed policy)) ps items refl h m).0

-- For a task that may only be done locally, every provider that `eligible_providers` returns, the
-- ones to fall back on included, is declared local or deterministic.
pub eligible_providers-is_local :
    (fl : Float) (policy : Policy) (q : Request fl) (ps : List Provider) (items : List Item)
    (p : Provider)
    → str_eq q.privacy "local-only" ≡ true
    → eligible_providers fl policy q ≡ ok (ps, items)
    → Memᴰ p ps
    → is_local p ≡ true
unfolding eligible_providers
eligible_providers-is_local fl policy q ps items p l h m =
    let (_, runs) =
      finish-IsEligible fl policy q p (consider fl policy q (listed policy)) ps items refl h m in
    allowed-is_local p q.privacy l runs.private
