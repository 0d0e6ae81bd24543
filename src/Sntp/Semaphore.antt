-- ===== src/Sntp/Semaphore.antt =====
-- The life of the semaphore of components/sntp-client-comp/sntp-client.cpp.
use esp32sx_c_plus_wrappers.Base.{
  ℕ, List, [], ◌∷◌, ◌==◌, ◌≡◌, ◌≢◌, refl, arith, Bool-cases, inl, inr, none, some,
}
use esp32sx_c_plus_wrappers.Driver.{Env, World}
use esp32sx_c_plus_wrappers.Driver.Handles.{Handles, alive, AllAlive}
use esp32sx_c_plus_wrappers.Sntp.{
  Sntp, Call, create_binary, semaphore_delete, semaphore_give, semaphore_take, init, notified,
  sync_wait, destroy, set_interval,
}

abbrev pub handles : Env Call → Handles Call
handles env = record {
  after = λ log c h. elim c [
    | create_binary ↦ env.code log create_binary
    | semaphore_delete s ↦ 0
    | _ ↦ h
  ];
  used = λ c. elim c [
    | semaphore_delete s ↦ some s
    | semaphore_give s ↦ some s
    | semaphore_take s t ↦ some s
    | _ ↦ none
  ];
}

-- The variable holds the semaphore that is alive, and no other has been used.
pub record Held (env : Env Call) (w : World Sntp Call) : Type 0 where
  pub holds : w.dev.semaphore ≡ alive (handles env) w.log
  pub uses : AllAlive (handles env) w.log

module _ (env : Env Call) where
  -- Every semaphore that is asked for is given.
  abbrev pub Creates : Type 0
  Creates = (log : List Call) → env.code log create_binary ≢ 0

  init-Held :
      (interval : ℕ) (w : World Sntp Call) → Creates → Held env w → Held env (init env interval w).1
  unfolding init set_interval
  init-Held interval w made h = elim (Bool-cases (w.dev.semaphore == 0)) [
    | inl first ↦ rw first (record {
      holds = refl;
      uses = ((refl, made w.log), (tt, (tt, (tt, (tt, (tt, (tt, h.uses)))))));
    })
    | inr again ↦ rw again h
  ]

  sync_wait-Held :
      (timeout : ℕ) (w : World Sntp Call) → Held env w → Held env (sync_wait env timeout w).1
  unfolding sync_wait
  sync_wait-Held timeout w h = ground arith

  pub data Op : Type 0 where
    starting waiting : ℕ → Op

  abbrev pub run : Op → World Sntp Call → World Sntp Call
  run (starting interval) w = (init env interval w).1
  run (waiting timeout) w = (sync_wait env timeout w).1

  abbrev pub run_all : List Op → World Sntp Call → World Sntp Call
  run_all [] w = w
  run_all (op ∷ ops) w = run_all ops (run op w)

  -- `init` and `syncWait`, in any order and however often, use no semaphore but the one that is
  -- alive, and `init` makes one only when there is none.
  pub run_all-Held :
      (ops : List Op) (w : World Sntp Call) → Creates → Held env w → Held env (run_all ops w)
  run_all-Held [] w made h = h
  run_all-Held (starting interval ∷ ops) w made h =
      run_all-Held ops (init env interval w).1 made (init-Held interval w made h)
  run_all-Held (waiting timeout ∷ ops) w made h =
      run_all-Held ops (sync_wait env timeout w).1 made (sync_wait-Held timeout w h)

  -- The destructor deletes the semaphore and leaves the variable: from then on `init` of any object
  -- does nothing at all, and `syncWait` and the notification use the deleted semaphore.
  pub destroy-stale :
      (interval timeout : ℕ) (w : World Sntp Call)
      → w.dev.semaphore ≢ 0
      → (let v = (destroy env w).1 in
          ((init env interval v).1 ≡ v)
          × ¬ AllAlive (handles env) (sync_wait env timeout v).1.log
          × ¬ AllAlive (handles env) (notified env v).1.log)
  unfolding init sync_wait notified destroy
  destroy-stale interval timeout w there =
      (ground arith, (λ all. ground arith), (λ all. ground arith))
