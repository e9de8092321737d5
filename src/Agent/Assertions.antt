-- ===== src/Agent/Assertions.antt =====
-- governor/autonomous_agent.py: `validate_canonical_assertions`.
use lifeos_platform.Prelude.{
  ℕ, String, Bool, true, false, ◌&&◌, ◌||◌, not, Option, none, some, List, [], ◌∷◌, length, any,
  all, contains, str_eq, ltb,
}
use lifeos_platform.Prelude.Exec.{Result, ok, err}
use lifeos_platform.Prelude.Outcome.{require, expect, ◌>>=◌, ◌>>◌}

-- Python's `re.fullmatch` with the pattern of an identifier, `len`, whether a text contains another,
-- `startswith("/")`, and `split("/")`.
pub record Strings : Type 0 where
  pub is_id : String → Bool
  pub length_of : String → ℕ
  pub mentions : String → String → Bool
  pub is_rooted : String → Bool
  pub split : String → List String

-- A dictionary of the request: its keys, the texts of `id` and `kind`, and `value` and `path` where
-- they are texts.
pub record Item : Type 0 where
  pub keys : List String
  pub id : String
  pub kind : String
  pub value : Option String
  pub path : Option String

-- The argument: null, no list, or a list, whose items may be no dictionaries.
pub data Given : Type 0 where
  absent not_a_list : Given
  listed : List (Option Item) → Given

pub data Error : Type 0 where
  invalid_assertions invalid_assertion invalid_id invalid_kind invalid_value invalid_path : Error

pub data Assertion : Type 0 where
  tracked_text_contains : String → String → String → Assertion
  tracked_path_absent : String → String → Assertion

abbrev pub id_of : Assertion → String
id_of (tracked_text_contains id path value) = id
id_of (tracked_path_absent id value) = id

-- The dictionary that is returned for an assertion.
abbrev pub rendered : Assertion → Item
rendered (tracked_text_contains id path value) = record {
  keys = "id" ∷ "kind" ∷ "value" ∷ "path" ∷ [];
  id = id;
  kind = "tracked_text_contains";
  value = some value;
  path = some path;
}
rendered (tracked_path_absent id value) = record {
  keys = "id" ∷ "kind" ∷ "value" ∷ [];
  id = id;
  kind = "tracked_path_absent";
  value = some value;
  path = none;
}

abbrev pub required_keys : Bool → List String
required_keys true = "id" ∷ "kind" ∷ "path" ∷ "value" ∷ []
required_keys false = "id" ∷ "kind" ∷ "value" ∷ []

-- Two lists with the same items.
abbrev pub same_keys : List String → List String → Bool
same_keys xs ys = all (contains ys) xs && all (contains xs) ys

module _ (py : Strings) where
  unfoldable pub is_value : String → Bool
  is_value value =
      not (str_eq value "") && (not (ltb 512 (py.length_of value)) && not (py.mentions value "\n"))

  -- A relative path without empty or dotted parts.
  unfoldable pub is_path : String → Bool
  is_path path =
      not (str_eq path "")
      && (not (ltb 256 (py.length_of path))
          && (not (py.is_rooted path)
              && (not (py.mentions path "\\")
                  && not (any (contains ("" ∷ "." ∷ ".." ∷ [])) (py.split path)))))

  abbrev pub checked : (String → Bool) → Option String → Error → Result Error String
  checked test text e = do value ← expect text e; require (test value) e; ok value

  abbrev pub assertion_of : Bool → Item → String → Result Error Assertion
  assertion_of true item value = do
    path ← checked is_path item.path invalid_path
    ok (tracked_text_contains item.id path value)
  assertion_of false item value = ok (tracked_path_absent item.id value)

  unfoldable pub validate_item : List String → Item → Result Error Assertion
  validate_item seen item = do
    let is_text_kind = str_eq item.kind "tracked_text_contains"
    require (same_keys item.keys (required_keys is_text_kind)) invalid_assertion
    require (py.is_id item.id && not (contains seen item.id)) invalid_id
    require (is_text_kind || str_eq item.kind "tracked_path_absent") invalid_kind
    value ← checked is_value item.value invalid_value
    assertion_of is_text_kind item value

  unfoldable pub validate_items : List String → List (Option Item) → Result Error (List Assertion)
  validate_items seen [] = ok []
  validate_items seen (none ∷ items) = err invalid_assertion
  validate_items seen (some item ∷ items) = do
    assertion ← validate_item seen item
    assertions ← validate_items (item.id ∷ seen) items
    ok (assertion ∷ assertions)

  unfoldable pub validate_canonical_assertions : Given → Result Error (List Assertion)
  validate_canonical_assertions absent = ok []
  validate_canonical_assertions not_a_list = err invalid_assertions
  validate_canonical_assertions (listed items) = do
    require (not (ltb 8 (length items))) invalid_assertions
    validate_items [] items
