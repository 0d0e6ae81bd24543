-- ===== src/Json/Tests.antt =====
-- Small trees for components/json-comp: a number, a text, an object of one item, or an array.
use esp32sx_c_plus_wrappers.Base.{
  ℕ, List, [], ◌∷◌, true, false, Option, none, some, length, get_elem?, ◌≡◌, refl, arith,
}
use esp32sx_c_plus_wrappers.Base.Int.{ℤ, pos, negsuc}
use esp32sx_c_plus_wrappers.Json.{Cjson, get_int, get_array_item}
use esp32sx_c_plus_wrappers.Json.Access.{Documented}

data Leaf : Type 0 where
  num : ℤ → Leaf
  text : List ℕ → Leaf

-- `items` has the items of an array, `object` those of an object, which are found in order and
-- without a look at their keys.
data Tree : Type 0 where
  leaf : Leaf → Tree
  items : List Leaf → Tree
  object : List Leaf → Tree

first_leaf : List Leaf → Option Tree
first_leaf [] = none
first_leaf (x ∷ _) = some (leaf x)

nth_leaf : List Leaf → ℕ → Option Tree
nth_leaf xs i = elim (get_elem? xs i) [ none ↦ none | some x ↦ some (leaf x) ]

abbrev item_of : Tree → Option Tree
unfolding first_leaf
item_of (object xs) = first_leaf xs
item_of _ = none

abbrev with_item : Leaf → Tree → Option Tree
with_item x (object xs) = some (object (x ∷ xs))
with_item x _ = none

abbrev trees : Cjson
trees = record {
  Node = Tree;
  Number = ℤ;
  of_int = λ n. n;
  parse = λ _. none;
  duplicate = λ t. some t;
  create = λ _. some (object []);
  print = λ _. none;
  is_number = λ t. elim t [ leaf l ↦ elim l [ num n ↦ true | text s ↦ false ] | _ ↦ false ];
  is_array = λ t. elim t [ items xs ↦ true | _ ↦ false ];
  value_int = λ t. elim t [ leaf l ↦ elim l [ num n ↦ n | text s ↦ pos 0 ] | _ ↦ pos 0 ];
  number_value = λ t. elim t [ leaf l ↦ elim l [ num n ↦ n | text s ↦ pos 0 ] | _ ↦ pos 0 ];
  string_value = λ t. elim t [ leaf l ↦ elim l [ num n ↦ none | text s ↦ some s ] | _ ↦ none ];
  array_size = λ t. elim t [ items xs ↦ length xs | _ ↦ 0 ];
  array_item =
      λ t i. elim t [ items xs ↦ elim i [ pos n ↦ nth_leaf xs n | negsuc n ↦ none ] | _ ↦ none ];
  object_item = λ t _. item_of t;
  object_item_exact = λ t _. item_of t;
  has_item = λ _ _. false;
  add_bool = λ t _ _. none;
  add_number = λ t _ n. with_item (num n) t;
  add_raw = λ _ _ _. none;
  add_string = λ t _ s. with_item (text s) t;
  add_array = λ _ _. none;
  add_reference = λ _ _ _. none;
  add_to_array = λ _ _. none;
  set_string = λ t _. t;
  set_number = λ t _. t;
  set_int = λ t _. t;
}

number_added :
    (root r : Tree) (val : ℤ)
    → with_item (num val) root ≡ some r
    → (trees.is_number r ≡ false) × ((n : Tree) × (item_of r ≡ some n) × (trees.value_int n ≡ val))
unfolding first_leaf
number_added (leaf l) r val e = cc
number_added (items xs) r val e = cc
number_added (object xs) r val e = (ground arith, (leaf (num val), ground arith, refl))

string_added :
    (root r : Tree) (val : List ℕ)
    → with_item (text val) root ≡ some r
    → (n : Tree) × (item_of r ≡ some n) × (trees.string_value n ≡ some val)
unfolding first_leaf
string_added (leaf l) r val e = cc
string_added (items xs) r val e = cc
string_added (object xs) r val e = (leaf (text val), ground arith, refl)

trees-Documented : Documented trees
trees-Documented = record {
  number_found = λ root r key val missing e. number_added root r val e;
  string_found = λ root r key val missing e. string_added root r val e;
}

read_back : get_int trees (object (num (pos 7) ∷ [])) (some (b'a' ∷ [])) ≡ some (pos 7)
unfolding get_int first_leaf
read_back = refl

-- The index is the size of the array.
item_past_end : get_array_item trees (items (num (pos 4) ∷ num (pos 5) ∷ [])) (pos 2) ≡ none
unfolding get_array_item nth_leaf
item_past_end = refl
