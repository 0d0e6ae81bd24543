-- ===== src/Json/Access.antt =====
-- Reading what a document of components/json-comp/json-comp.cpp holds.
use esp32sx_c_plus_wrappers.Base.{
  ℕ, zero, suc, ◌<◌, ltb, sym, List, [], ◌∷◌, true, false, Option, none, some, length, get_elem?,
  ◌≡◌, refl, arith, Bool-cases, inl, inr,
}
use esp32sx_c_plus_wrappers.Base.Int.{ℤ, pos, negsuc}
use esp32sx_c_plus_wrappers.Json.{
  Cjson, add_int, add_text, get_int, get_string, get_array_item, get_array_size, string_of, int_of,
}

module _ (c : Cjson) where
  open c use {
    Node, Number, of_int, is_number, is_array, value_int, string_value, array_size, array_item,
    object_item, add_number, add_string, add_raw,
  }

  -- What cJSON documents: an item that was added under a key that was missing is found under it,
  -- with the value that it was given, and the tree stays an object.
  pub record Documented : Type 0 where
    pub number_found :
        (root r : Node) (key : List ℕ) (val : ℤ)
        → object_item root key ≡ none
        → add_number root key (of_int val) ≡ some r
        → (is_number r ≡ false) × ((n : Node) × (object_item r key ≡ some n) × (value_int n ≡ val))
    pub string_found :
        (root r : Node) (key val : List ℕ)
        → object_item root key ≡ none
        → add_string root key val ≡ some r
        → (n : Node) × (object_item r key ≡ some n) × (string_value n ≡ some val)

  -- What was added under a missing key is read back by `getInt` and `getString`.
  pub get-add :
      Documented
      → (root r s : Node) (key text : List ℕ) (val : ℤ) → object_item root key ≡ none
      → add_int c root key val ≡ some r
      → add_text c root key text false ≡ some s
      → (get_int c r (some key) ≡ some val) × (get_string c s (some key) ≡ some text)
  unfolding add_int add_text get_int get_string int_of string_of
  get-add d root r s key text val missing added added_text =
      let (not_number, (n, found, value)) = d.number_found root r key val missing added in
      let (m, found_text, value_text) = d.string_found root s key text missing added_text in
      (rw (not_number, found, value), rw (found_text, value_text))

  -- cJSON's arrays: an item for each index from 0 below the size, and none for any other.
  pub record IsArrayOf (root : Node) (items : List Node) : Type 0 where
    pub is_one : is_array root ≡ true
    pub sized : array_size root ≡ length items
    pub at : (i : ℕ) → array_item root (pos i) ≡ get_elem? items i
    pub before : (i : ℕ) → array_item root (negsuc i) ≡ none

  abbrev pub item_at : List Node → ℤ → Option Node
  item_at items (pos i) = get_elem? items i
  item_at items (negsuc i) = none

  beyond : (items : List Node) (i : ℕ) → length items < i → get_elem? items i ≡ none
  beyond [] i h = refl
  beyond (x ∷ items) zero h = absurd (omega arith)
  beyond (x ∷ items) (suc i) h = beyond items i (omega arith)

  -- `getArrayItem` of an array gives the item at an index, and NULL for every index that the array
  -- does not have, negative ones and the size included.
  pub get_array_item-at :
      (root : Node) (items : List Node) (index : ℤ)
      → IsArrayOf root items
      → get_array_item c root index ≡ item_at items index
  unfolding get_array_item get_array_size
  get_array_item-at root items (pos i) a = elim (Bool-cases (ltb (length items) i)) [
    | inl past ↦ rw (a.is_one, a.sized, past) (sym (beyond items i (ground arith)))
    | inr inside ↦ rw (a.is_one, a.sized, inside) (a.at i)
  ]
  get_array_item-at root items (negsuc i) a = rw a.is_one (a.before i)
