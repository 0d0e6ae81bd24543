-- ===== src/Driver/Script.antt =====
-- What a chain of `ESP_RETURN_ON_ERROR` promises: the calls are made in order, and the first that
-- fails ends the chain with its error.
use esp32sx_c_plus_wrappers.Base.{
  ℕ, List, [], ◌∷◌, ◌++◌, ◌==◌, if◌then◌else◌, ◌≡◌, refl, ◌≢◌, inl, inr, arith, Bool-cases, ==_iff,
}
use esp32sx_c_plus_wrappers.Driver.{Env, World, M}

-- The history after the calls `cs`.
abbrev pub onto {ℓ} : {C : Type ℓ} → List C → List C → List C
onto [] log = log
onto (c ∷ cs) log = onto cs (c ∷ log)

module _ {C : Type 0} (env : Env C) where
  -- Every call of the list succeeds when they are made in order after `log`.
  abbrev pub Succeeds : List C → List C → Type 0
  Succeeds [] log = Unit {0}
  Succeeds (c ∷ cs) log = (env.code log c ≡ 0) × Succeeds cs (c ∷ log)

  -- The calls `done` succeed, the call `c` after them fails, and the calls `rest` are not made.
  pub record FailsAt (cs log : List C) (done : List C) (c : C) (rest : List C) : Type 0 where
    pub parts : cs ≡ done ++ (c ∷ rest)
    pub succeeded : Succeeds done log
    pub failed : env.code (onto done log) c ≢ 0

module _ {D C : Type 0} (env : Env C) where
  unfoldable pub run_script : List C → M D C ℕ
  run_script [] w = (0, w)
  run_script (c ∷ cs) w =
      let rest = run_script cs (record w { log = c ∷ w.log }) in
      if env.code w.log c == 0 then rest else (env.code w.log c, record w { log = c ∷ w.log })

  -- The two ways in which a script ends.
  pub data Ends (cs : List C) (w : World D C) : ℕ × World D C → Type 0 where
    whole : Succeeds env cs w.log → Ends cs w (0, record w { log = onto cs w.log })
    broken :
        (done : List C) (c : C) (rest : List C)
        → FailsAt env cs w.log done c rest
        → Ends cs w (env.code (onto done w.log) c, record w { log = c ∷ onto done w.log })

  Ends-cons :
      (c : C) (cs : List C) (w : World D C) (r : ℕ × World D C)
      → env.code w.log c ≡ 0
      → Ends cs (record w { log = c ∷ w.log }) r
      → Ends (c ∷ cs) w r
  Ends-cons c cs w _ e (whole s) = whole (e, s)
  Ends-cons c cs w _ e (broken done d rest f) =
      broken (c ∷ done) d rest
        (record { parts = λ i. c ∷ f.parts i; succeeded = (e, f.succeeded); failed = f.failed })

  pub run_script-Ends : (cs : List C) (w : World D C) → Ends cs w (run_script cs w)
  unfolding run_script
  run_script-Ends [] w = whole tt
  run_script-Ends (c ∷ cs) w = elim (Bool-cases (env.code w.log c == 0)) [
    | inl ok ↦ rw ok (Ends-cons c cs w _ ((==_iff _ _).0 ok) (run_script-Ends cs _))
    | inr bad ↦
        rw bad (broken [] c cs (record { parts = refl; succeeded = tt; failed = ground arith }))
  ]

  pub run_script-Succeeds :
      (cs : List C) (w : World D C)
      → Succeeds env cs w.log
      → run_script cs w ≡ (0, record w { log = onto cs w.log })
  unfolding run_script
  run_script-Succeeds [] w h = refl
  run_script-Succeeds (c ∷ cs) w h =
      ground (arith, run_script-Succeeds cs (record w { log = c ∷ w.log }) h.1)

  pub run_script_ok :
      (cs : List C) (w : World D C)
      → (run_script cs w).0 ≡ 0
      → (run_script cs w).1 ≡ record w { log = onto cs w.log }
  unfolding run_script
  run_script_ok [] w h = refl
  run_script_ok (c ∷ cs) w h = ground (arith, run_script_ok cs (record w { log = c ∷ w.log }))

  pub run_script-append :
      (cs ds : List C) (w : World D C)
      → run_script (cs ++ ds) w
        ≡ (let (e, w') = run_script cs w in if e == 0 then run_script ds w' else (e, w'))
  unfolding run_script
  run_script-append [] ds w = refl
  run_script-append (c ∷ cs) ds w = elim (Bool-cases (env.code w.log c == 0)) [
    | inl ok ↦ rw ok (run_script-append cs ds _)
    | inr bad ↦ rw (bad, bad)
  ]
