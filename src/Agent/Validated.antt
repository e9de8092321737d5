-- ===== src/Agent/Validated.antt =====
-- What `validate_canonical_assertions` lets through (governor/autonomous_agent.py).
use lifeos_platform.Prelude.{
  suc, String, ◌≡◌, ◌≤◌, refl, ap, arith, Bool, true, false, ◌&&◌, not, Option, none, some, List,
  [], ◌∷◌, map, length, contains, any, str_eq, ◌↔◌, ltb,
}
use lifeos_platform.Prelude.Exec.{ok}
use lifeos_platform.Prelude.Outcome.{
  require, expect, ◌>>=◌, Ensures, >>=-Ensures, ok-Ensures, require-returns,
}
use lifeos_platform.Agent.Assertions.{
  Strings, Item, Given, absent, not_a_list, listed, Error, Assertion, tracked_text_contains,
  tracked_path_absent, id_of, rendered, is_value, is_path, checked, assertion_of, validate_item,
  validate_items, validate_canonical_assertions,
}

module _ (py : Strings) where
  pub record IsValue (value : String) : Type 0 where
    pub filled : str_eq value "" ≡ false
    pub short : py.length_of value ≤ 512
    pub one_line : py.mentions value "\n" ≡ false

  abbrev pub AllPlain : List String → Type 0
  AllPlain [] = Unit {0}
  AllPlain (part ∷ parts) =
      ((str_eq "" part ≡ false) × (str_eq "." part ≡ false) × (str_eq ".." part ≡ false))
      × AllPlain parts

  -- A relative path whose parts are neither empty nor dots.
  pub record IsRelative (path : String) : Type 0 where
    pub filled : str_eq path "" ≡ false
    pub short : py.length_of path ≤ 256
    pub unrooted : py.is_rooted path ≡ false
    pub unescaped : py.mentions path "\\" ≡ false
    pub plain : AllPlain (py.split path)

  AllPlain-any :
      (parts : List String) → (any (contains ("" ∷ "." ∷ ".." ∷ [])) parts ≡ false ↔ AllPlain parts)
  AllPlain-any [] = ((λ _. tt), (λ _. refl))
  AllPlain-any (part ∷ parts) =
      let (there, back) = AllPlain-any parts in
      (
        (λ h. ((ground arith, ground arith, ground arith), there (ground arith))),
        (λ ((a, b, c), ps). rw (a, b, c) (back ps)),
      )

  is_value-IsValue : (value : String) → (is_value py value ≡ true ↔ IsValue value)
  unfolding is_value
  is_value-IsValue value = (
    (λ h. record { filled = ground arith; short = ground arith; one_line = ground arith }),
    (λ v. ground (arith, v.filled, v.short, v.one_line)),
  )

  is_path-IsRelative : (path : String) → (is_path py path ≡ true ↔ IsRelative path)
  unfolding is_path
  is_path-IsRelative path =
      let (there, back) = AllPlain-any (py.split path) in
      (
        (λ h. record {
          filled = ground arith;
          short = ground arith;
          unrooted = ground arith;
          unescaped = ground arith;
          plain = there (ground arith);
        }),
        (λ r.
            let plain = back r.plain in ground (arith, r.filled, r.short, r.unrooted, r.unescaped)),
      )

  abbrev pub Valid : Assertion → Type 0
  Valid (tracked_text_contains id path value) =
      (py.is_id id ≡ true) × IsValue value × IsRelative path
  Valid (tracked_path_absent id value) = (py.is_id id ≡ true) × IsValue value

  -- Every assertion is valid, and its identifier is new.
  abbrev pub Accepted : List String → List Assertion → Type 0
  Accepted seen [] = Unit {0}
  Accepted seen (a ∷ rest) =
      Valid a × (contains seen (id_of a) ≡ false) × Accepted (id_of a ∷ seen) rest

  checked-Ensures :
      (test : String → Bool) (text : Option String) (e : Error)
      → Ensures (λ value. test value ≡ true) (checked py test text e)
  checked-Ensures test text e =
      >>=-Ensures _ _ λ value h. >>=-Ensures _ _ λ u k. ok-Ensures value (require-returns _ e u k)

  assertion_of-Ensures :
      (b : Bool) (item : Item) (value : String)
      → py.is_id item.id ≡ true
      → IsValue value
      → Ensures (λ a. Valid a × (id_of a ≡ item.id)) (assertion_of py b item value)
  assertion_of-Ensures true item value i v = >>=-Ensures _ _ λ path h. ok-Ensures _ (
    (i, v, (is_path-IsRelative path).0 ((checked-Ensures (is_path py) item.path _).holds path h)),
    refl,
  )
  assertion_of-Ensures false item value i v = ok-Ensures _ ((i, v), refl)

  validate_item-Ensures :
      (seen : List String) (item : Item)
      → Ensures
          (λ a. (Valid a × (id_of a ≡ item.id)) × (contains seen item.id ≡ false))
          (validate_item py seen item)
  unfolding validate_item
  validate_item-Ensures seen item = >>=-Ensures _ _ λ _ _. >>=-Ensures _ _ λ u h.
      >>=-Ensures _ _ λ _ _. >>=-Ensures _ _ λ value v. record {
        holds = λ a e.
            let id_new : py.is_id item.id && not (contains seen item.id) ≡ true =
              require-returns _ _ u h in
            (
              (assertion_of-Ensures _ item value (ground arith) (
                    (is_value-IsValue value).0
                      ((checked-Ensures (is_value py) item.value _).holds value v))).holds
                  a e,
              ground arith,
            );
      }

  validate_items-Accepted :
      (seen : List String) (items : List (Option Item))
      → Ensures (Accepted seen) (validate_items py seen items)
  unfolding validate_items
  validate_items-Accepted seen [] = ok-Ensures _ tt
  validate_items-Accepted seen (none ∷ items) = record { holds = λ a h. absurd (ground arith) }
  validate_items-Accepted seen (some item ∷ items) = >>=-Ensures _ _ λ a h.
      >>=-Ensures _ _ λ rest k.
        let ((valid, same), new) = (validate_item-Ensures seen item).holds a h in
        let accepted = (validate_items-Accepted (item.id ∷ seen) items).holds rest k in
        ok-Ensures _ (valid, rw same new, rw same accepted)

  accept_text :
      (seen : List String) (id path value : String)
      → py.is_id id ≡ true
      → contains seen id ≡ false
      → is_value py value ≡ true
      → is_path py path ≡ true
      → validate_item py seen (rendered (tracked_text_contains id path value))
        ≡ ok (tracked_text_contains id path value)
  unfolding validate_item require expect ◌>>=◌
  accept_text seen id path value i n v p = rw (i, n, v, p) refl

  accept_path :
      (seen : List String) (id value : String)
      → py.is_id id ≡ true
      → contains seen id ≡ false
      → is_value py value ≡ true
      → validate_item py seen (rendered (tracked_path_absent id value))
        ≡ ok (tracked_path_absent id value)
  unfolding validate_item require expect ◌>>=◌
  accept_path seen id value i n v = rw (i, n, v) refl

  validate_item-rendered :
      (seen : List String) (a : Assertion)
      → Valid a
      → contains seen (id_of a) ≡ false
      → validate_item py seen (rendered a) ≡ ok a
  validate_item-rendered seen (tracked_text_contains id path value) (i, v, p) n =
      accept_text seen id path value i n ((is_value-IsValue value).1 v)
        ((is_path-IsRelative path).1 p)
  validate_item-rendered seen (tracked_path_absent id value) (i, v) n =
      accept_path seen id value i n ((is_value-IsValue value).1 v)

  abbrev pub given_again : List Assertion → List (Option Item)
  given_again rest = map (λ a. some (rendered a)) rest

  rendered-id : (a : Assertion) → (rendered a).id ≡ id_of a
  rendered-id (tracked_text_contains id path value) = refl
  rendered-id (tracked_path_absent id value) = refl

  validate_items-rendered :
      (seen : List String) (rest : List Assertion)
      → Accepted seen rest
      → validate_items py seen (given_again rest) ≡ ok rest
  unfolding validate_items ◌>>=◌
  validate_items-rendered seen [] h = refl
  validate_items-rendered seen (a ∷ rest) (valid, new, h) =
      rw
        (
          validate_item-rendered seen a valid new,
          rendered-id a,
          validate_items-rendered (id_of a ∷ seen) rest h,
        )
        refl

  validate_items-length :
      (seen : List String) (items : List (Option Item))
      → Ensures (λ rest. length rest ≡ length items) (validate_items py seen items)
  unfolding validate_items
  validate_items-length seen [] = ok-Ensures _ refl
  validate_items-length seen (none ∷ items) = record { holds = λ a h. absurd (ground arith) }
  validate_items-length seen (some item ∷ items) = >>=-Ensures _ _ λ a h.
      >>=-Ensures _ _ λ rest k.
        ok-Ensures _ (ap suc ((validate_items-length (item.id ∷ seen) items).holds rest k))

  -- Where the validation returns, there are at most eight assertions, each of them is valid, with a
  -- relative path without dotted parts where it has one, and their identifiers are distinct.
  pub validate_canonical_assertions-Accepted :
      (given : Given)
      → Ensures
          (λ assertions. Accepted [] assertions × (length assertions ≤ 8))
          (validate_canonical_assertions py given)
  unfolding validate_canonical_assertions
  validate_canonical_assertions-Accepted absent = ok-Ensures _ (tt, omega arith)
  validate_canonical_assertions-Accepted not_a_list = record {
    holds = λ a h. absurd (ground arith);
  }
  validate_canonical_assertions-Accepted (listed items) = >>=-Ensures _ _ λ u h. record {
    holds = λ assertions k.
        let small : not (ltb 8 (length items)) ≡ true = require-returns _ _ u h in
        let same : length assertions ≡ length items =
          (validate_items-length [] items).holds assertions k in
        ((validate_items-Accepted [] items).holds assertions k, ground arith);
  }

  length-given_again : (rest : List Assertion) → length (given_again rest) ≡ length rest
  length-given_again [] = refl
  length-given_again (a ∷ rest) = ap suc (length-given_again rest)

  -- What the validation returns is validated again to itself.
  pub validate_canonical_assertions-rendered :
      (given : Given) (assertions : List Assertion)
      → validate_canonical_assertions py given ≡ ok assertions
      → validate_canonical_assertions py (listed (given_again assertions)) ≡ ok assertions
  unfolding validate_canonical_assertions require ◌>>=◌
  validate_canonical_assertions-rendered given assertions h =
      let (accepted, small) = (validate_canonical_assertions-Accepted given).holds assertions h in
      let fits : ltb 8 (length (given_again assertions)) ≡ false =
        rw (length-given_again assertions) (ground arith) in
      rw (fits) (validate_items-rendered [] assertions accepted)
