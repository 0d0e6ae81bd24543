-- ===== src/Http/Memory.antt =====
-- The buffers of components/http-server-comp/http-server.cpp.
use esp32sx_c_plus_wrappers.Base.{
  ℕ, ◌+◌, List, [], ◌∷◌, ◌==◌, if◌then◌else◌, ltb, ◌&&◌, ◌≡◌, arith, Bool-cases, inl, inr,
}
use esp32sx_c_plus_wrappers.Driver.{Env, World}
use esp32sx_c_plus_wrappers.Http.{
  HttpServer, Call, allocate, free, Req, Parsers, has_key, get_key, has_query, tell_408,
}

module _ (env : Env Call) (p : ℕ) where
  -- How often the pointer `p` has been given by the allocator, and given back.
  abbrev pub given : List Call → ℕ
  given [] = 0
  given (allocate n ∷ log) = (if env.code log (allocate n) == p then 1 else 0) + given log
  given (_ ∷ log) = given log

  abbrev pub given_back : List Call → ℕ
  given_back [] = 0
  given_back (free q ∷ log) = (if q == p then 1 else 0) + given_back log
  given_back (_ ∷ log) = given_back log

  -- A pointer has been given back as often as it was given since an earlier history.
  abbrev pub IsSettled : List Call → List Call → Type 0
  IsSettled log log' = given log' + given_back log ≡ given_back log' + given log

  module _ (parsers : Parsers) (req : Req) where
    has_key-IsSettled :
        (key : List ℕ) (w : World HttpServer Call)
        → IsSettled w.log (has_key env parsers req key w).1.log
    unfolding has_key
    has_key-IsSettled key w = ground arith

    get_key-IsSettled :
        (key : List ℕ) (len : ℕ) (w : World HttpServer Call)
        → IsSettled w.log (get_key env parsers req key len w).1.log
    unfolding get_key
    get_key-IsSettled key len w =
        let h = has_key-IsSettled key w in
        elim (Bool-cases ((has_key env parsers req key w).0 && ltb 0 len)) [
          | inl more ↦ rw more (ground (arith, h))
          | inr done ↦ rw done h
        ]

    has_query-IsSettled :
        (w : World HttpServer Call) → IsSettled w.log (has_query env parsers req w).1.log
    unfolding has_query tell_408
    has_query-IsSettled w = ground arith

    -- `hasKey`, `getKey` and `hasQuery` free each buffer that they allocate, once, whatever the
    -- parsers, the connection and the allocator answer.
    pub queries-IsSettled :
        (key : List ℕ) (len : ℕ) (w : World HttpServer Call)
        → IsSettled w.log (has_key env parsers req key w).1.log
          × IsSettled w.log (get_key env parsers req key len w).1.log
          × IsSettled w.log (has_query env parsers req w).1.log
    queries-IsSettled key len w =
        (has_key-IsSettled key w, get_key-IsSettled key len w, has_query-IsSettled w)
