-- ===== src/Http/Query.antt =====
-- `hasKey` and `getKey` of components/http-server-comp/http-server.cpp on a query of one pair.
use esp32sx_c_plus_wrappers.Base.{
  ℕ, zero, suc, ◌+◌, ◌-◌, ◌<◌, ◌≤◌, List, [], ◌∷◌, ◌++◌, ◌==◌, if◌then◌else◌, ltb, true, false,
  length, take, length-append, length-take, ◌≡◌, ◌≢◌, ap, arith, ◌∙◌, min, Bool-cases, inl, inr,
}
use esp32sx_c_plus_wrappers.Driver.{Env, World}
use esp32sx_c_plus_wrappers.Http.{
  HttpServer, Call, allocate, Text, Parsers, has_key, get_key, esp_fail,
}

-- ESP_ERR_HTTPD_RESULT_TRUNC
abbrev pub err_truncated : ℕ
err_truncated = 0xb006

-- A key, the sign =, and a value.
abbrev pub pair : List ℕ → List ℕ → List ℕ
pair key value = key ++ (0x3d ∷ value)

-- A text without the signs = and & and without the end mark.
abbrev pub Plain : List ℕ → Type 0
Plain [] = Unit {0}
Plain (x ∷ xs) = (x ≢ 0x3d) × (x ≢ 0x26) × (x ≢ 0) × Plain xs

Plain-take : (n : ℕ) (xs : List ℕ) → Plain xs → Plain (take n xs)
Plain-take zero xs p = tt
Plain-take (suc n) [] p = tt
Plain-take (suc n) (x ∷ xs) (a, b, c, p) = (a, b, c, Plain-take n xs p)

-- What esp_http_server documents of its parsers: a text that fits its buffer with an end mark is
-- given whole, and one that does not is cut to what fits. Of the queries, one pair of plain texts is
-- enough here.
pub record Documented (parsers : Parsers) : Type 0 where
  pub query_whole :
      (q : List ℕ) (n : ℕ) → length q < n → parsers.query_str q n ≡ record { err = 0; chars = q }
  pub query_cut :
      (q : List ℕ) (n : ℕ)
      → 0 < n
      → n ≤ length q
      → parsers.query_str q n ≡ record { err = err_truncated; chars = take (n - 1) q }
  pub value_whole :
      (key value : List ℕ) (n : ℕ)
      → Plain key
      → Plain value
      → length value < n
      → parsers.key_value (pair key value) key n ≡ record { err = 0; chars = value }
  pub value_cut :
      (key value : List ℕ) (n : ℕ)
      → Plain key
      → Plain value
      → 0 < n
      → n ≤ length value
      → parsers.key_value (pair key value) key n
        ≡ record { err = err_truncated; chars = take (n - 1) value }

take-after :
    (key rest : List ℕ) (n m : ℕ) → n ≡ length key + m → take n (key ++ rest) ≡ key ++ take m rest
take-after [] rest n m e = let e' : n ≡ m = omega arith in rw e'
take-after (k ∷ key) rest zero m e = absurd (omega arith)
take-after (k ∷ key) rest (suc n) m e = ap (◌∷◌ k) (take-after key rest n m (omega arith))

-- What `hasKey` finds, for the buffer of ten bytes that it gives the value: nothing is left of a
-- value of one character.
module _ (parsers : Parsers) (d : Documented parsers) (key value : List ℕ) where
  value_at_ten :
      Plain key
      → Plain value
      → (let t = parsers.key_value (pair key value) key 10 in
          (length t.chars ≡ min (length value) 9) × (t.err ≢ 0x105))
  value_at_ten k v = elim (Bool-cases (ltb (length value) 10)) [
    | inl short ↦
        let e = d.value_whole key value 10 k v (ground arith) in rw e (ground arith, ground arith)
    | inr long ↦
        let e = d.value_cut key value 10 k v (omega arith) (ground arith) in
        rw e (ground (arith, length-take 9 value), ground arith)
  ]

  cut_query :
      (n : ℕ)
      → length value ≡ suc n
      → parsers.query_str (pair key value) (length (pair key value))
        ≡ record { err = err_truncated; chars = pair key (take n value) }
  cut_query n e =
      let l : length (pair key value) ≡ length key + suc (length value) =
        length-append key (0x3d ∷ value) in
      let t : take (length (pair key value) - 1) (pair key value)
          ≡ key ++ take (suc n) (0x3d ∷ value) =
        take-after key (0x3d ∷ value) (length (pair key value) - 1) (suc n) (omega arith) in
      d.query_cut (pair key value) (length (pair key value)) (omega arith) (omega arith)
      ∙ ap (λ (x : List ℕ). let r : Text = record { err = err_truncated; chars = x } in r) t

  whole_query :
      parsers.query_str (pair key value) (length (pair key value) + 1)
      ≡ record { err = 0; chars = pair key value }
  whole_query = d.query_whole (pair key value) (length (pair key value) + 1) (omega arith)

module _ (env : Env Call) (parsers : Parsers) (d : Documented parsers) where
  -- Every allocation succeeds.
  abbrev pub Allocates : Type 0
  Allocates = (log : List Call) (n : ℕ) → env.code log (allocate n) ≢ 0

  has_key-pair :
      (key value body : List ℕ) (n : ℕ) (w : World HttpServer Call)
      → Allocates
      → Plain key
      → Plain value
      → length value ≡ suc n
      → (has_key env parsers (record { query = pair key value; body = body }) key w).0 ≡ ltb 0 n
  unfolding has_key
  has_key-pair key value body n w got k v e =
      let cut = cut_query parsers d key value n e in
      let (at_ten, there) = value_at_ten parsers d key (take n value) k (Plain-take n value v) in
      let some_left : ltb 0 (length (pair key value)) ≡ true =
        ground (arith, length-append key (0x3d ∷ value)) in
      let there' : (env.code w.log (allocate (length (pair key value))) == 0) ≡ false =
        ground (arith, got w.log (length (pair key value))) in
      rw (some_left, there', cut) (ground (arith, at_ten, there, length-take n value))

  -- `getKey` on a query of one pair, with a buffer that the value fits, when every allocation
  -- succeeds and neither the key nor the value has a sign = or & or an end mark: a value of two
  -- characters or more is given whole, and one of a single character is not found, since `hasKey`
  -- reads the query without its last character.
  pub get_key-pair :
      (key value body : List ℕ) (len : ℕ) (w : World HttpServer Call)
      → Allocates
      → Plain key
      → Plain value
      → 0 < length value
      → length value < len
      → (get_key env parsers (record { query = pair key value; body = body }) key len w).0 ≡ (
          if ltb 1 (length value)
          then record { err = 0; chars = value }
          else record { err = esp_fail; chars = [] })
  unfolding get_key
  get_key-pair key value body len w got k v h l =
      let found = has_key-pair key value body (length value - 1) w got k v (omega arith) in
      let w' = (has_key env parsers (record { query = pair key value; body = body }) key w).1 in
      let there : (env.code w'.log (allocate (length (pair key value) + 1)) == 0) ≡ false =
        ground (arith, got w'.log (length (pair key value) + 1)) in
      let room : ltb 0 len ≡ true = ground arith in
      elim (Bool-cases (ltb 1 (length value))) [
        | inl long ↦
            let found' : ltb 0 (length value - 1) ≡ true = ground arith in
            rw (
              found,
              found',
              room,
              long,
              there,
              whole_query parsers d key value,
              d.value_whole key value len k v l,
            )
        | inr short ↦
            let found' : ltb 0 (length value - 1) ≡ false = ground arith in
            rw (found, found', short)
      ]
