-- ===== src/Timer/Kinds.antt =====
-- The calls of the two kinds of timers in components/timer-comp/timer-comp.cpp: those of esp_timer,
-- and those of the timer groups.
use esp32sx_c_plus_wrappers.Base.{
  ℕ, List, [], ◌∷◌, ◌≡◌, refl, subst, ◌∙◌, Bool, true, false, not, ◌&&◌, arith,
}
use esp32sx_c_plus_wrappers.Driver.{Env, World}
use esp32sx_c_plus_wrappers.Timer as T
use esp32sx_c_plus_wrappers.Timer.{
  Timer, Call, init, start, start_timeout, stop, deinit, create, remove, callback, enable, disable,
  get_time, set_alarm, autoreload, set_autoreload, clear, destroy,
}

-- Whether a call is one of esp_timer.
abbrev pub is_soft : Call → Bool
is_soft (T.esp_start_once _ _) = true
is_soft (T.esp_start_periodic _ _) = true
is_soft (T.esp_stop _) = true
is_soft (T.esp_delete _) = true
is_soft (T.esp_create _) = true
is_soft T.esp_get_time = true
is_soft _ = false

abbrev pub agrees : Bool → Bool → Bool
agrees true b = b
agrees false b = not b

-- Every call of the history is of the kind.
abbrev pub all_of : Bool → List Call → Bool
all_of kind [] = true
all_of kind (c ∷ log) = agrees (is_soft c) kind && all_of kind log

-- The operations but for the `start` with a timeout.
pub data Op : Type 0 where
  initialising making : ℕ → Op
  starting stopping deinitialising removing enabling disabling timing reloading clearing
        destroying :
      Op
  calling : ℕ → ℕ → Op
  alarming : ℕ → Op
  setting_reload : Bool → Op

module _ (env : Env Call) where
  abbrev pub run : Op → World Timer Call → World Timer Call
  run (initialising config) w = (init env config w).1
  run (making args) w = (create env args w).1
  run starting w = (start env w).1
  run stopping w = (stop env w).1
  run deinitialising w = (deinit env w).1
  run removing w = (remove env w).1
  run enabling w = (enable env w).1
  run disabling w = (disable env w).1
  run timing w = (get_time env w).1
  run reloading w = (autoreload env w).1
  run clearing w = (clear env w).1
  run destroying w = (destroy env w).1
  run (calling handler args) w = (callback env handler args w).1
  run (alarming t) w = (set_alarm env t w).1
  run (setting_reload en) w = (set_autoreload env en w).1

  abbrev pub run_all : List Op → World Timer Call → World Timer Call
  run_all [] w = w
  run_all (op ∷ ops) w = run_all ops (run op w)

  run-kind :
      (op : Op) (w : World Timer Call)
      → all_of w.dev.soft_timer w.log ≡ true
      → ((run op w).dev.soft_timer ≡ w.dev.soft_timer)
        × (all_of w.dev.soft_timer (run op w).log ≡ true)
  unfolding init create start stop deinit remove enable disable get_time autoreload clear destroy
      callback set_alarm set_autoreload
  run-kind (initialising config) w h = (ground arith, ground arith)
  run-kind (making args) w h = (ground arith, ground arith)
  run-kind starting w h = (ground arith, ground arith)
  run-kind stopping w h = (ground arith, ground arith)
  run-kind deinitialising w h = (ground arith, ground arith)
  run-kind removing w h = (ground arith, ground arith)
  run-kind enabling w h = (ground arith, ground arith)
  run-kind disabling w h = (ground arith, ground arith)
  run-kind timing w h = (ground arith, ground arith)
  run-kind reloading w h = (ground arith, ground arith)
  run-kind clearing w h = (ground arith, ground arith)
  run-kind destroying w h = (ground arith, ground arith)
  run-kind (calling handler args) w h = (ground arith, ground arith)
  run-kind (alarming t) w h = (ground arith, ground arith)
  run-kind (setting_reload en) w h = (ground arith, ground arith)

  -- An object stays of its kind, and a software timer makes no call of the hardware driver, nor a
  -- hardware timer one of esp_timer, in any sequence of operations but the `start` with a timeout.
  pub run_all-kind :
      (ops : List Op) (w : World Timer Call)
      → all_of w.dev.soft_timer w.log ≡ true
      → ((run_all ops w).dev.soft_timer ≡ w.dev.soft_timer)
        × (all_of w.dev.soft_timer (run_all ops w).log ≡ true)
  run_all-kind [] w h = (refl, h)
  run_all-kind (op ∷ ops) w h =
      let (kind, calls) = run-kind op w h in
      let (kinds, all_calls) = run_all-kind ops (run op w) (rw kind calls) in
      (kinds ∙ kind, subst (λ k. all_of k (run_all ops (run op w)).log ≡ true) kind all_calls)

  -- The `start` with a timeout asks esp_timer for the handle of a hardware timer too, which none has
  -- made.
  pub start_timeout-hard :
      (timeout_us : ℕ) (periodic : Bool) (w : World Timer Call)
      → w.dev.soft_timer ≡ false
      → all_of w.dev.soft_timer (start_timeout env timeout_us periodic w).1.log ≡ false
  unfolding start_timeout
  start_timeout-hard timeout_us true w h = ground arith
  start_timeout-hard timeout_us false w h = ground arith

  -- A driver that keeps the setting of a hardware timer: `autoreload()` returns the opposite of what
  -- was set.
  pub autoreload-set_autoreload :
      (en : Bool) (w : World Timer Call)
      → w.dev.soft_timer ≡ false
      → (let c = T.hw_set_auto_reload w.dev.group w.dev.timer_id (T.to_number en) in
          env.code (c ∷ w.log) (T.hw_get_auto_reload w.dev.group w.dev.timer_id) ≡ T.to_number en)
      → (autoreload env (set_autoreload env en w).1).0 ≡ not en
  unfolding autoreload set_autoreload
  autoreload-set_autoreload true w h e = ground arith
  autoreload-set_autoreload false w h e = ground arith
