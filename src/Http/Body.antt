-- ===== src/Http/Body.antt =====
-- The body of a request in components/http-server-comp/http-server.cpp.
use esp32sx_c_plus_wrappers.Base.{
  ℕ, zero, suc, ◌+◌, ◌<◌, List, [], ◌∷◌, ◌++◌, true, take, drop, take-append-take, ◌≡◌, refl, arith,
  sym, ◌∙◌, drop-nil,
}
use esp32sx_c_plus_wrappers.Driver.{Env, World}
use esp32sx_c_plus_wrappers.Http.{
  HttpServer, Call, Req, Parsers, has_query, get_query, received, tell_408, count_of,
}

drop-drop {ℓ} : {A : Type ℓ} (m n : ℕ) (xs : List A) → drop m (drop n xs) ≡ drop (m + n) xs
drop-drop m zero xs = let e : m ≡ m + 0 = omega arith in rw (← e)
drop-drop {A} m (suc n) [] = drop-nil A m ∙ sym (drop-nil A (m + suc n))
drop-drop m (suc n) (x ∷ xs) =
    let e : m + suc n ≡ suc (m + n) = omega arith in rw e (drop-drop m n xs)

module _ (env : Env Call) (parsers : Parsers) (req : Req) where
  -- The bytes that `getQuery` gives, with buffers of these lengths one after the other.
  pub chunks : List ℕ → World HttpServer Call → List ℕ
  chunks [] w = []
  chunks (len ∷ lens) w =
      let ((_, bytes), w') = get_query env parsers req len w in bytes ++ chunks lens w'

  get_query-bytes :
      (len : ℕ) (w : World HttpServer Call)
      → (let ((r, bytes), w') = get_query env parsers req len w in
          (bytes ≡ take (count_of r) (drop (received env parsers req w.log) req.body))
          × (received env parsers req w'.log ≡ count_of r + received env parsers req w.log))
  unfolding get_query tell_408
  get_query-bytes len w = ground arith

  -- The buffers' bytes are the next ones of the body, without gaps.
  chunks-next :
      (lens : List ℕ) (w : World HttpServer Call)
      → (n : ℕ) × (chunks lens w ≡ take n (drop (received env parsers req w.log) req.body))
  unfolding chunks
  chunks-next [] w = (0, refl)
  chunks-next (len ∷ lens) w =
      let ((r, bytes), w') = get_query env parsers req len w in
      let (these, on) = get_query-bytes len w in
      let (n, rest) = chunks-next lens w' in
      let at = received env parsers req w.log in
      (
        count_of r + n,
        (rw (these, rest, on, ← drop-drop (count_of r) at req.body)
            (take-append-take (count_of r) n (drop at req.body))),
      )

  has_query-received :
      (w : World HttpServer Call)
      → (has_query env parsers req w).0 ≡ true
      → received env parsers req w.log
        < received env parsers req (has_query env parsers req w).1.log
  unfolding has_query tell_408
  has_query-received w h = ground arith

  -- The bytes that a sequence of `getQuery` calls gives are the body's first ones, in order and
  -- without gaps, if nothing was received before; but after a `hasQuery` that says that there is a
  -- body they start behind at least one byte, which nobody gets.
  pub has_query-loses :
      (lens : List ℕ) (w : World HttpServer Call)
      → received env parsers req w.log ≡ 0
      → (has_query env parsers req w).0 ≡ true
      → ((n : ℕ) × (chunks lens w ≡ take n req.body))
        × (let w' = (has_query env parsers req w).1 in
            let k = received env parsers req w'.log in
            (0 < k) × ((n : ℕ) × (chunks lens w' ≡ take n (drop k req.body))))
  has_query-loses lens w none_yet h =
      let (n, e) = chunks-next lens w in
      let w' = (has_query env parsers req w).1 in
      let (m, e') = chunks-next lens w' in
      ((n, rw none_yet at e), (omega (arith, has_query-received w h), (m, e')))
