-- ===== src/Http/Tests.antt =====
-- A concrete server for components/http-server-comp.
use esp32sx_c_plus_wrappers.Base.{
  zero, ◌==◌, ◌&&◌, Bool, true, false, length-append, ◌∙◌, ℕ, suc, ◌-◌, ◌<◌, ◌≤◌, List, [], ◌∷◌,
  if◌then◌else◌, ltb, length, take, drop, ◌≡◌, refl, arith,
}
use esp32sx_c_plus_wrappers.Base.Int.{pos}
use esp32sx_c_plus_wrappers.Driver.{Env, World}
use esp32sx_c_plus_wrappers.Http.{
  HttpServer, Call, allocate, Req, Text, Parsers, get_key, has_query, received, esp_fail,
  err_not_found,
}
use esp32sx_c_plus_wrappers.Http.Query.{Plain, pair, err_truncated, Documented, get_key-pair}
use esp32sx_c_plus_wrappers.Http.Body.{chunks, has_query-loses}

abbrev fit : List ℕ → ℕ → Text
fit text n =
    if ltb (length text) n
    then record { err = 0; chars = text }
    else record { err = err_truncated; chars = take (n - 1) text }

-- The text before the first `c`, and that behind it.
abbrev before : ℕ → List ℕ → List ℕ
before c [] = []
before c (x ∷ xs) = if x == c then [] else x ∷ before c xs

abbrev behind : ℕ → List ℕ → List ℕ
behind c [] = []
behind c (x ∷ xs) = if x == c then xs else behind c xs

abbrev same_text : List ℕ → List ℕ → Bool
same_text [] [] = true
same_text (x ∷ xs) (y ∷ ys) = x == y && same_text xs ys
same_text _ _ = false

-- The pairs are looked through for the key, the first ten of them.
abbrev find_key : ℕ → List ℕ → List ℕ → ℕ → Text
find_key zero text key n = record { err = err_not_found; chars = [] }
find_key (suc pairs) text key n =
    let later = find_key pairs (behind 0x26 text) key n in
    if length text == 0
    then record { err = err_not_found; chars = [] }
    else if same_text (before 0x3d text) key
    then fit (before 0x26 (behind 0x3d text)) n
    else later

abbrev parsers : Parsers
parsers = record { query_str = fit; key_value = find_key 10 }

before-pair : (key value : List ℕ) → Plain key → before 0x3d (pair key value) ≡ key
before-pair [] value p = refl
before-pair (x ∷ key) value (e, _, _, p) =
    let e' : (x == 0x3d) ≡ false = ground arith in rw (e', before-pair key value p) refl

behind-pair : (key value : List ℕ) → Plain key → behind 0x3d (pair key value) ≡ value
behind-pair [] value p = refl
behind-pair (x ∷ key) value (e, _, _, p) =
    let e' : (x == 0x3d) ≡ false = ground arith in rw e' (behind-pair key value p)

before-Plain : (xs : List ℕ) → Plain xs → before 0x26 xs ≡ xs
before-Plain [] p = refl
before-Plain (x ∷ xs) (_, e, _, p) =
    let e' : (x == 0x26) ≡ false = ground arith in rw (e', before-Plain xs p) refl

same_text_refl : (xs : List ℕ) → same_text xs xs ≡ true
same_text_refl [] = refl
same_text_refl (x ∷ xs) = let e : (x == x) ≡ true = ground arith in rw (e, same_text_refl xs) refl

find_key-pair :
    (key value : List ℕ) (n : ℕ)
    → Plain key
    → Plain value
    → find_key 10 (pair key value) key n ≡ fit value n
find_key-pair key value n k v =
    let there : (length (pair key value) == 0) ≡ false =
      ground (arith, length-append key (0x3d ∷ value)) in
    rw
      (
        there,
        before-pair key value k,
        same_text_refl key,
        behind-pair key value k,
        before-Plain value v,
      )
      refl

fit_whole :
    (text : List ℕ) (n : ℕ) → length text < n → fit text n ≡ record { err = 0; chars = text }
fit_whole text n h = ground arith

fit_cut :
    (text : List ℕ) (n : ℕ)
    → n ≤ length text
    → fit text n ≡ record { err = err_truncated; chars = take (n - 1) text }
fit_cut text n h = ground arith

parsers-Documented : Documented parsers
parsers-Documented = record {
  query_whole = λ q n h. fit_whole q n h;
  query_cut = λ q n p h. fit_cut q n h;
  value_whole = λ key value n k v h. find_key-pair key value n k v ∙ fit_whole value n h;
  value_cut = λ key value n k v p h. find_key-pair key value n k v ∙ fit_cut value n h;
}

-- The allocator gives 9, and each `recv` three bytes.
abbrev env_ok : Env Call
env_ok = record {
  code = λ _ c. elim c [ allocate n ↦ 9 | _ ↦ 0 ];
  int = λ _ _. pos 3;
  bytes = λ _ _. [];
}

abbrev server : World HttpServer Call
server = record {
  dev = record {
    handle = 4;
    config = record {
      wildcard = true;
      max_open_sockets = 3;
      stack_size = 10240;
      max_uri_handlers = 10;
      server_port = 80;
      ctrl_port = 32768;
    };
    config_ssl = record {
      ssl_wildcard = true;
      cacert_pem = 0;
      cacert_len = pos 0;
      prvtkey_pem = 0;
      prvtkey_len = pos 0;
    };
    port = 80;
  };
  log = [];
}

abbrev req : Req
req = record { query = pair (b'a' ∷ []) (b'1' ∷ []); body = 1 ∷ 2 ∷ 3 ∷ 4 ∷ 5 ∷ 6 ∷ 7 ∷ [] }

-- `?a=1` is not found.
get_key-pair_example : (get_key env_ok parsers req (b'a' ∷ []) 8 server).0 ≡ (
    if ltb 1 1
    then record { err = 0; chars = b'1' ∷ [] }
    else record { err = esp_fail; chars = [] })
get_key-pair_example =
    get_key-pair env_ok parsers parsers-Documented (b'a' ∷ []) (b'1' ∷ []) req.body 8 server
      (λ _ _. omega arith) (omega arith, omega arith, omega arith, tt)
      (omega arith, omega arith, omega arith, tt) (omega arith) (omega arith)

has_query-loses_example :
    ((n : ℕ) × (chunks env_ok parsers req (3 ∷ 3 ∷ []) server ≡ take n req.body))
    × (let w' = (has_query env_ok parsers req server).1 in
        let k = received env_ok parsers req w'.log in
        (0 < k)
        × ((n : ℕ) × (chunks env_ok parsers req (3 ∷ 3 ∷ []) w' ≡ take n (drop k req.body))))
unfolding has_query
has_query-loses_example = has_query-loses env_ok parsers req (3 ∷ 3 ∷ []) server refl refl
