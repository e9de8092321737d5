-- ===== src/Router/Sorting.antt =====
-- The order in which engineer/provider_router.py tries the eligible providers.
use mathlib.Core.List.{Memᴰ}
use mathlib.Core.List.Memᴰ.{head, tail}
use lifeos_platform.Prelude.{
  ◌≡◌, inl, inr, Bool, true, false, List, [], ◌∷◌, arith, if◌then◌else◌, Bool-cases,
}
use lifeos_platform.Router.Eligible.{Candidate, Key, key, key_lt, insert, sort}

-- `c` may come before `d`.
abbrev pub Precedes : Candidate → Candidate → Type 0
Precedes c d = key_lt (key d) (key c) ≡ false

key_lt_trans : (a b c : Key) → key_lt b a ≡ false → key_lt c b ≡ false → key_lt c a ≡ false
unfolding key_lt
key_lt_trans a b c h k = ground arith

key_lt_asym : (a b : Key) → key_lt a b ≡ true → key_lt b a ≡ false
unfolding key_lt
key_lt_asym a b h = ground arith

pub Precedes-refl : (c : Candidate) → Precedes c c
unfolding key_lt
Precedes-refl c = ground arith

abbrev pub PrecedesAll : Candidate → List Candidate → Type 0
PrecedesAll c [] = Unit
PrecedesAll c (d ∷ ds) = Precedes c d × PrecedesAll c ds

abbrev pub IsSorted : List Candidate → Type 0
IsSorted [] = Unit
IsSorted (c ∷ cs) = PrecedesAll c cs × IsSorted cs

PrecedesAll-trans :
    (a b : Candidate) (cs : List Candidate) → Precedes a b → PrecedesAll b cs → PrecedesAll a cs
PrecedesAll-trans a b [] h k = tt
PrecedesAll-trans a b (c ∷ cs) h (k, ks) =
    (key_lt_trans (key a) (key b) (key c) h k, PrecedesAll-trans a b cs h ks)

insert-PrecedesAll :
    (a c : Candidate) (ds : List Candidate)
    → Precedes a c
    → PrecedesAll a ds
    → PrecedesAll a (insert c ds)
unfolding insert
insert-PrecedesAll a c [] h k = (h, tt)
insert-PrecedesAll a c (d ∷ ds) h (k, ks) = elim (Bool-cases (key_lt (key d) (key c))) [
  | inl y ↦ rw y (k, insert-PrecedesAll a c ds h ks)
  | inr n ↦ rw n (h, (k, ks))
]

insert-IsSorted : (c : Candidate) (ds : List Candidate) → IsSorted ds → IsSorted (insert c ds)
unfolding insert
insert-IsSorted c [] h = (tt, tt)
insert-IsSorted c (d ∷ ds) (h, hs) = elim (Bool-cases (key_lt (key d) (key c))) [
  | inl y ↦
      rw y (insert-PrecedesAll d c ds (key_lt_asym (key d) (key c) y) h, insert-IsSorted c ds hs)
  | inr n ↦ rw n ((n, PrecedesAll-trans c d ds n h), (h, hs))
]

pub sort-IsSorted : (cs : List Candidate) → IsSorted (sort cs)
unfolding sort
sort-IsSorted [] = tt
sort-IsSorted (c ∷ cs) = insert-IsSorted c (sort cs) (sort-IsSorted cs)

pass-Memᴰ :
    {x c d : Candidate} {ds es : List Candidate}
    → (Memᴰ x (c ∷ ds) → Memᴰ x es)
    → Memᴰ x (c ∷ d ∷ ds)
    → Memᴰ x (d ∷ es)
pass-Memᴰ f (head e) = tail (f (head e))
pass-Memᴰ f (tail (head e)) = head e
pass-Memᴰ f (tail (tail r)) = tail (f (tail r))

back-Memᴰ :
    {x c d : Candidate} {ds es : List Candidate}
    → (Memᴰ x es → Memᴰ x (c ∷ ds))
    → Memᴰ x (d ∷ es)
    → Memᴰ x (c ∷ d ∷ ds)
back-Memᴰ f (head e) = tail (head e)
back-Memᴰ f (tail r) = elim (f r) [ head e ↦ head e | tail m ↦ tail (tail m) ]

insert-Memᴰ : (x c : Candidate) (ds : List Candidate) → Memᴰ x (c ∷ ds) → Memᴰ x (insert c ds)
unfolding insert
insert-Memᴰ x c [] m = m
insert-Memᴰ x c (d ∷ ds) m =
    let rest = insert-Memᴰ x c ds in
    elim (Bool-cases (key_lt (key d) (key c))) [ inl y ↦ rw y (pass-Memᴰ rest m) | inr n ↦ rw n m ]

Memᴰ-insert : (x c : Candidate) (ds : List Candidate) → Memᴰ x (insert c ds) → Memᴰ x (c ∷ ds)
unfolding insert
Memᴰ-insert x c [] m = m
Memᴰ-insert x c (d ∷ ds) m = let rest = Memᴰ-insert x c ds in by (key_lt (key d) (key c)) rest m
  where
    by :
        (b : Bool)
        → (Memᴰ x (insert c ds) → Memᴰ x (c ∷ ds))
        → Memᴰ x (if b then d ∷ insert c ds else c ∷ d ∷ ds)
        → Memᴰ x (c ∷ d ∷ ds)
    by true rest m = back-Memᴰ rest m
    by false rest m = m

pub sort-Memᴰ : (x : Candidate) (cs : List Candidate) → Memᴰ x cs → Memᴰ x (sort cs)
unfolding sort
sort-Memᴰ x [] m = elim m [ ]
sort-Memᴰ x (c ∷ cs) (head e) = insert-Memᴰ x c (sort cs) (head e)
sort-Memᴰ x (c ∷ cs) (tail r) = insert-Memᴰ x c (sort cs) (tail (sort-Memᴰ x cs r))

pub Memᴰ-sort : (x : Candidate) (cs : List Candidate) → Memᴰ x (sort cs) → Memᴰ x cs
unfolding sort
Memᴰ-sort x [] m = elim m [ ]
Memᴰ-sort x (c ∷ cs) m =
    let rest = Memᴰ-sort x cs in
    elim (Memᴰ-insert x c (sort cs) m) [ head e ↦ head e | tail r ↦ tail (rest r) ]
