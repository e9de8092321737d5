-- ===== src/Router/Considered.antt =====
-- The loop of `eligible_providers` in engineer/provider_router.py.
use mathlib.Core.Path.{subst}
use mathlib.Core.List.{Memᴰ}
use mathlib.Core.List.Memᴰ.{head, tail}
use lifeos_platform.Prelude.{
  String, ◌≡◌, refl, sym, Bool, true, false, Option, none, some, List, [], ◌∷◌, arith, contains,
  if◌then◌else◌,
}
use lifeos_platform.Prelude.Float.{Float}
use lifeos_platform.Prelude.Exec.{Result, ok, err}
use lifeos_platform.Router.Policy.{Error, Provider, Policy, credentials}
use lifeos_platform.Router.Eligible.{
  Candidate, Item, Request, status, item, is_available, join, consider,
}
use lifeos_platform.Router.Runnable.{IsRunnable, status-IsRunnable, IsRunnable-status}

-- The providers of the task have identifiers, and lists of texts as credentials.
pub record IsValid (p : Provider) : Type 0 where
  pub pid : String
  pub needed : List String
  pub named : p.id ≡ some pid
  pub valid : credentials p.credentials p.credential ≡ ok needed

abbrev pub AllValid : String → List Candidate → Type 0
AllValid task_class [] = Unit
AllValid task_class (c ∷ cs) =
    (contains c.provider.task_classes task_class ≡ true → IsValid c.provider)
    × AllValid task_class cs

module _ (fl : Float) (policy : Policy) (q : Request fl) where
  abbrev pub Loop : Type 0
  Loop = Result Error (List Candidate × List Item)

  abbrev pub Holds : Candidate → List Candidate → Type 0
  Holds x cs = Memᴰ x cs × IsRunnable fl policy q x.provider

  -- What the round for `c` makes of the rounds after it.
  abbrev round_of : Candidate → Bool → Option String → Result Error (List String) → Loop → Loop
  round_of c b o n r = if b then join fl c (item fl policy q c.provider o n) r else r

  kept :
      (b : Bool) (x c : Candidate) (cs es : List Candidate)
      → (b ≡ true → IsRunnable fl policy q c.provider)
      → (Memᴰ x es → Holds x cs)
      → Memᴰ x (if b then c ∷ es else es)
      → Holds x (c ∷ cs)
  kept true x c cs es new rest (head e) =
      (head e, subst (λ (y : Candidate). IsRunnable fl policy q y.provider) (sym e) (new refl))
  kept true x c cs es new rest (tail m) = let (a, r) = rest m in (tail a, r)
  kept false x c cs es new rest m = let (a, r) = rest m in (tail a, r)

  round-Holds :
      (x c : Candidate) (cs : List Candidate) (b : Bool) (o : Option String)
      (n : Result Error (List String)) (r : Loop) (es : List Candidate) (items : List Item)
      → contains c.provider.task_classes q.task_class ≡ b
      → c.provider.id ≡ o
      → credentials c.provider.credentials c.provider.credential ≡ n
      → ((es' : List Candidate) (items' : List Item)
          → r ≡ ok (es', items')
          → Memᴰ x es'
          → Holds x cs)
      → round_of c b o n r ≡ ok (es, items)
      → Memᴰ x es
      → Holds x (c ∷ cs)
  unfolding item
  round-Holds x c cs false o n r es items s f g rest h m =
      let (a, k) = rest es items h m in (tail a, k)
  round-Holds x c cs true none n r es items s f g rest h m = absurd (ground arith)
  round-Holds x c cs true (some pid) (err e) r es items s f g rest h m = absurd (ground arith)
  round-Holds x c cs true (some pid) (ok names) (err e) es items s f g rest h m =
      absurd (ground arith)
  round-Holds x c cs true (some pid) (ok names) (ok (es', items')) es items s f g rest h m =
      let b = is_available fl (status fl policy q c.provider pid names) in
      let same : (if b then c ∷ es' else es') ≡ es = ground arith in
      kept b x c cs es' (λ a. status-IsRunnable fl policy q c.provider pid names f g s a)
        (rest es' items' refl) (subst (Memᴰ x) (sym same) m)

  pub consider-IsRunnable :
      (x : Candidate) (cs es : List Candidate) (items : List Item)
      → consider fl policy q cs ≡ ok (es, items)
      → Memᴰ x es
      → Holds x cs
  unfolding consider
  consider-IsRunnable x [] es items h m =
      let same : es ≡ [] = ground arith in elim (subst (Memᴰ x) same m) [ ]
  consider-IsRunnable x (c ∷ cs) es items h m =
      round-Holds x c cs _ _ _ (consider fl policy q cs) es items refl refl refl
        (λ es' items' k l. consider-IsRunnable x cs es' items' k l) h m

  found :
      (b : Bool) (x c : Candidate) (cs es : List Candidate)
      → (x ≡ c → b ≡ true)
      → (Memᴰ x cs → Memᴰ x es)
      → Memᴰ x (c ∷ cs)
      → Memᴰ x (if b then c ∷ es else es)
  found true x c cs es new rest (head e) = head e
  found true x c cs es new rest (tail m) = tail (rest m)
  found false x c cs es new rest (head e) = let bad = new e in absurd (ground arith)
  found false x c cs es new rest (tail m) = rest m

  round-Memᴰ :
      (x c : Candidate) (cs : List Candidate) (b : Bool) (o : Option String)
      (n : Result Error (List String)) (r : Loop) (es : List Candidate) (items : List Item)
      → contains c.provider.task_classes q.task_class ≡ b
      → c.provider.id ≡ o
      → credentials c.provider.credentials c.provider.credential ≡ n
      → (x ≡ c → IsRunnable fl policy q c.provider)
      → ((es' : List Candidate) (items' : List Item)
          → r ≡ ok (es', items')
          → Memᴰ x cs
          → Memᴰ x es')
      → round_of c b o n r ≡ ok (es, items)
      → Memᴰ x (c ∷ cs)
      → Memᴰ x es
  unfolding item
  round-Memᴰ x c cs false o n r es items s f g runs rest h m =
      found false x c cs es (λ e. let k = (runs e).serves in ground arith) (rest es items h) m
  round-Memᴰ x c cs true none n r es items s f g runs rest h m = absurd (ground arith)
  round-Memᴰ x c cs true (some pid) (err e) r es items s f g runs rest h m = absurd (ground arith)
  round-Memᴰ x c cs true (some pid) (ok names) (err e) es items s f g runs rest h m =
      absurd (ground arith)
  round-Memᴰ x c cs true (some pid) (ok names) (ok (es', items')) es items s f g runs rest h m =
      let b = is_available fl (status fl policy q c.provider pid names) in
      let same : (if b then c ∷ es' else es') ≡ es = ground arith in
      subst (Memᴰ x) same (
        found b x c cs es' (λ e. IsRunnable-status fl policy q c.provider pid names f g (runs e))
          (rest es' items' refl) m)

  pub consider-Memᴰ :
      (x : Candidate) (cs es : List Candidate) (items : List Item)
      → consider fl policy q cs ≡ ok (es, items)
      → IsRunnable fl policy q x.provider
      → Memᴰ x cs
      → Memᴰ x es
  unfolding consider
  consider-Memᴰ x [] es items h r m = elim m [ ]
  consider-Memᴰ x (c ∷ cs) es items h r m =
      round-Memᴰ x c cs _ _ _ (consider fl policy q cs) es items refl refl refl
        (λ e. subst (λ (y : Candidate). IsRunnable fl policy q y.provider) e r)
        (λ es' items' k l. consider-Memᴰ x cs es' items' k r l) h m

  abbrev pub Returned : Loop → Type 0
  Returned r = (es : List Candidate) × (items : List Item) × (r ≡ ok (es, items))

  round-Returned :
      (c : Candidate) (b : Bool) (o : Option String) (n : Result Error (List String)) (r : Loop)
      → c.provider.id ≡ o
      → credentials c.provider.credentials c.provider.credential ≡ n
      → (b ≡ true → IsValid c.provider)
      → Returned r
      → Returned (round_of c b o n r)
  unfolding item
  round-Returned c false o n r f g v h = h
  round-Returned c true none n r f g v h = let k = (v refl).named in absurd (ground arith)
  round-Returned c true (some pid) (err e) r f g v h =
      let k = (v refl).valid in absurd (ground arith)
  round-Returned c true (some pid) (ok names) (err e) f g v (es, items, h) = absurd (ground arith)
  round-Returned c true (some pid) (ok names) (ok (es, items)) f g v h = (_, _, refl)

  pub consider_returns :
      (cs : List Candidate) → AllValid q.task_class cs → Returned (consider fl policy q cs)
  unfolding consider
  consider_returns [] h = ([], [], refl)
  consider_returns (c ∷ cs) (v, vs) =
      round-Returned c _ _ _ (consider fl policy q cs) refl refl v (consider_returns cs vs)
