-- ===== src/Json.antt =====
-- components/json-comp/json-comp.cpp: a document of cJSON behind its root. cJSON is no part of the
-- repository: its trees and what it does with them are a parameter, where a change of a tree is a
-- new tree, and NULL is none. Items that a caller keeps pointers into are not modelled.
pub mod Access
mod Tests
use esp32sx_c_plus_wrappers.Base.{
  ℕ, List, [], ◌∷◌, ◌==◌, ltb, if◌then◌else◌, Bool, true, false, ◌||◌, not, Option, none, some,
}
use esp32sx_c_plus_wrappers.Base.Int.{ℤ, pos, negsuc}

-- The types of a node that the constructor tells apart.
pub data Kind : Type 0 where
  json_false json_true json_null json_number json_string json_array json_object json_raw other :
      Kind

-- `Number` is the C `double`.
pub record Cjson : Type 1 where
  pub Node : Type 0
  pub Number : Type 0
  pub of_int : ℤ → Number
  pub parse : List ℕ → Option Node
  pub duplicate : Node → Option Node
  pub create : Kind → Option Node
  pub print : Node → Option (List ℕ)
  pub is_number : Node → Bool
  pub is_array : Node → Bool
  pub value_int : Node → ℤ
  pub number_value : Node → Number
  pub string_value : Node → Option (List ℕ)
  pub array_size : Node → ℕ
  pub array_item : Node → ℤ → Option Node
  -- case-insensitive, and case-sensitive
  pub object_item : Node → List ℕ → Option Node
  pub object_item_exact : Node → List ℕ → Option Node
  pub has_item : Node → List ℕ → Bool
  -- the tree with the new item, or none if it could not be added
  pub add_bool : Node → List ℕ → Bool → Option Node
  pub add_number : Node → List ℕ → Number → Option Node
  pub add_raw : Node → List ℕ → List ℕ → Option Node
  pub add_string : Node → List ℕ → List ℕ → Option Node
  pub add_array : Node → List ℕ → Option Node
  pub add_reference : Node → List ℕ → Node → Option Node
  pub add_to_array : Node → Node → Option Node
  pub set_string : Node → List ℕ → Node
  pub set_number : Node → Number → Node
  -- the integer and the number of a node; its type stays
  pub set_int : Node → ℤ → Node

-- `int`'s comparison of a size with an index.
abbrev pub lt_index : ℕ → ℤ → Bool
lt_index n (pos i) = ltb n i
lt_index n (negsuc i) = false

abbrev pub int_of_bool : Bool → ℤ
int_of_bool true = pos 1
int_of_bool false = pos 0

module _ (c : Cjson) where
  open c use {
    Node, Number, of_int, parse, duplicate, create, print, is_number, is_array, value_int,
    number_value, string_value, array_size, array_item, object_item, object_item_exact, has_item,
    add_bool, add_number, add_raw, add_string, add_array, add_reference, add_to_array, set_string,
    set_number, set_int,
  }

  -- An unknown type makes an object.
  unfoldable pub of_kind : Kind → Option Node
  of_kind other = create json_object
  of_kind k = create k

  unfoldable pub add_value_bool : Node → List ℕ → Bool → Option Node
  add_value_bool root key val = add_bool root key val

  pub add_int : Node → List ℕ → ℤ → Option Node
  add_int root key val = add_number root key (of_int val)

  unfoldable pub add_double : Node → List ℕ → Number → Option Node
  add_double root key val = add_number root key val

  pub add_text : Node → List ℕ → List ℕ → Bool → Option Node
  add_text root key val raw = if raw then add_raw root key val else add_string root key val

  unfoldable pub add_item : Node → List ℕ → Node → Option Node
  add_item root key item = add_reference root key item

  unfoldable pub get_object : Node → List ℕ → Bool → Option Node
  get_object root key sensitive =
      if sensitive then object_item_exact root key else object_item root key

  unfoldable pub exist : Node → List ℕ → Bool
  exist root key = has_item root key

  -- `set` of the root; a truth value is written as an integer.
  unfoldable pub set_text : Node → List ℕ → Node
  set_text root val = set_string root val

  unfoldable pub set_value_int : Node → ℤ → Node
  set_value_int root val = set_int root val

  unfoldable pub set_bool : Node → Bool → Node
  set_bool root val = set_int root (int_of_bool val)

  unfoldable pub set_double : Node → Number → Node
  set_double root val = set_number root val

  string_of : Option Node → Option (List ℕ)
  string_of none = none
  string_of (some item) = string_value item

  -- cJSON gives NULL for the text of a node that is NULL.
  pub get_string : Node → Option (List ℕ) → Option (List ℕ)
  unfolding string_of
  get_string root none = string_value root
  get_string root (some key) = string_of (object_item root key)

  int_of : Option Node → Option ℤ
  int_of none = none
  int_of (some item) = some (value_int item)

  -- A root that is a number answers whatever the key; `none` is the use of a null pointer, which a
  -- key that is missing leads to. No key is searched for as NULL, which finds nothing.
  pub get_int : Node → Option (List ℕ) → Option ℤ
  unfolding int_of
  get_int root key =
      if is_number root
      then some (value_int root)
      else int_of (elim key [ none ↦ none | some k ↦ object_item root k ])

  pub get_array_size : Node → ℕ
  get_array_size root = if is_array root then array_size root else 0

  -- The index may be the size: then cJSON is asked for an item that is not there.
  pub get_array_item : Node → ℤ → Option Node
  unfolding get_array_size
  get_array_item root index =
      if not (is_array root) || lt_index (get_array_size root) index
      then none
      else array_item root index

  unfoldable pub of_text : List ℕ → Option Node
  of_text obj = parse obj

  -- The constructor from a node, and `createObject`.
  unfoldable pub of_node : Node → Option Node
  of_node obj = duplicate obj

  unfoldable pub add_array_at : Node → List ℕ → Option Node
  add_array_at root key = add_array root key

  unfoldable pub push : Node → Node → Option Node
  push root obj = add_to_array root obj

  unfoldable pub print_root : Node → Option (List ℕ)
  print_root root = print root

  number_of : Option Node → Option Number
  number_of none = none
  number_of (some item) = some (number_value item)

  -- `none` is the NaN that cJSON gives for the number of NULL.
  unfoldable pub get_double : Node → Option (List ℕ) → Option Number
  unfolding number_of
  get_double root none = some (number_value root)
  get_double root (some key) = number_of (object_item root key)
