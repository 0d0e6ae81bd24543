-- ===== src/Tasks/Safety.antt =====
-- The handle of components/tasks-comp/tasks-comp.cpp.
use esp32sx_c_plus_wrappers.Base.{
  ℕ, List, [], ◌∷◌, ◌==◌, if◌then◌else◌, ◌≡◌, ◌≢◌, refl, sym, ap, ◌∙◌, Option, none, some, arith,
  Bool-cases, inl, inr,
}
use esp32sx_c_plus_wrappers.Driver.{Env, World}
use esp32sx_c_plus_wrappers.Driver.Handles.{Handles, alive, AllAlive}
use esp32sx_c_plus_wrappers.Tasks.{
  Task, Call, task_create, task_delete, task_suspend, task_resume, task_notify, task_notify_give,
  get_idle_handle, first_or, on_task, create, remove, suspend, resume, run, run_loop, on_loop,
  notify, give,
}

-- What the calls do with the handle.
abbrev pub handle_after : Env Call → List Call → Call → ℕ → ℕ
handle_after env log (task_create stack prio) h =
    if env.code log (task_create stack prio) == 1
    then first_or h (env.bytes log (task_create stack prio))
    else h
handle_after env log (task_delete _) h = 0
handle_after env log _ h = h

abbrev pub handle_used : Call → Option ℕ
handle_used (task_delete h) = some h
handle_used (task_suspend h) = some h
handle_used (task_resume h) = some h
handle_used (task_notify h _ _) = some h
handle_used (task_notify_give h) = some h
handle_used _ = none

abbrev pub handles : Env Call → Handles Call
handles env = record { after = handle_after env; used = handle_used }

pub data Op : Type 0 where
  creating : ℕ → ℕ → ℕ → Op
  removing suspending resuming running giving : Op
  looping : ℕ → Op
  notifying : ℕ → ℕ → Op

-- The object holds the handle that is alive, and has used no other.
pub record Held (env : Env Call) (w : World Task Call) : Type 0 where
  pub holds : w.dev.task_handle ≡ alive (handles env) w.log
  pub uses : AllAlive (handles env) w.log

module _ (env : Env Call) where
  abbrev pub after_op : Op → World Task Call → World Task Call
  after_op (creating stack prio args) w = (create env stack prio args w).1
  after_op removing w = (remove env w).1
  after_op suspending w = (suspend env w).1
  after_op resuming w = (resume env w).1
  after_op running w = (run env w).1
  after_op giving w = (give env w).1
  after_op (looping cb) w = (on_loop env cb w).1
  after_op (notifying value action) w = (notify env value action w).1

  abbrev pub after_all : List Op → World Task Call → World Task Call
  after_all [] w = w
  after_all (op ∷ ops) w = after_all ops (after_op op w)

  -- A call that uses the handle, and leaves it alive.
  use-Held :
      (call : ℕ → Call) (w : World Task Call)
      → ((h : ℕ) → handle_used (call h) ≡ some h)
      → ((h k : ℕ) → handle_after env w.log (call h) k ≡ k)
      → Held env w
      → w.dev.task_handle ≢ 0
      → Held env (record w { log = call w.dev.task_handle ∷ w.log })
  use-Held call w u kept h there = record {
    holds = h.holds ∙ sym (kept _ _);
    uses = (rw (u w.dev.task_handle) (h.holds, there), h.uses);
  }

  on_task-Held :
      (call : ℕ → Call) (w : World Task Call)
      → ((h : ℕ) → handle_used (call h) ≡ some h)
      → ((h k : ℕ) → handle_after env w.log (call h) k ≡ k)
      → Held env w
      → Held env (on_task env call w).1
  on_task-Held call w u kept h = elim (Bool-cases (w.dev.task_handle == 0)) [
    | inl none_there ↦ rw none_there h
    | inr there ↦ rw there (use-Held call w u kept h (ground arith))
  ]

  notify-on_task :
      (value action : ℕ) (w : World Task Call)
      → (notify env value action w).1 ≡ (on_task env (λ t. task_notify t value action) w).1
  unfolding notify
  notify-on_task value action w = ground arith

  give-on_task : (w : World Task Call) → (give env w).1 ≡ (on_task env task_notify_give w).1
  unfolding give
  give-on_task w = ground arith

  remove-Held : (w : World Task Call) → Held env w → Held env (remove env w).1
  unfolding remove
  remove-Held w h = elim (Bool-cases (w.dev.task_handle == 0)) [
    | inl none_there ↦ rw none_there (record { holds = ground (arith, h.holds); uses = h.uses })
    | inr there ↦ rw there (record { holds = refl; uses = ((h.holds, ground arith), h.uses) })
  ]

  create-Held :
      (stack prio args : ℕ) (w : World Task Call)
      → Held env w
      → Held env (create env stack prio args w).1
  unfolding create
  create-Held stack prio args w h =
      elim (Bool-cases (env.code (get_idle_handle ∷ w.log) (task_create stack prio) == 1)) [
        | inl made ↦ rw made (record {
          holds = rw made (
              ap (λ t. first_or t (env.bytes (get_idle_handle ∷ w.log) (task_create stack prio)))
                h.holds);
          uses = (tt, (tt, h.uses));
        })
        | inr failed ↦ rw failed (record { holds = rw failed h.holds; uses = (tt, (tt, h.uses)) })
      ]

  run_loop-Held :
      (cb : Option ℕ) (w : World Task Call) → Held env w → Held env (run_loop env cb w).1
  run_loop-Held none w h = h
  run_loop-Held (some cb) w h = record { holds = h.holds; uses = (tt, h.uses) }

  after_op-Held : (op : Op) (w : World Task Call) → Held env w → Held env (after_op op w)
  after_op-Held (creating stack prio args) w h = create-Held stack prio args w h
  after_op-Held removing w h = remove-Held w h
  after_op-Held suspending w h = on_task-Held task_suspend w (λ _. refl) (λ _ _. refl) h
  after_op-Held resuming w h = on_task-Held task_resume w (λ _. refl) (λ _ _. refl) h
  after_op-Held running w h = run_loop-Held w.dev.loop w h
  after_op-Held giving w h =
      rw (give-on_task w) (on_task-Held task_notify_give w (λ _. refl) (λ _ _. refl) h)
  after_op-Held (looping cb) w h = record { holds = h.holds; uses = h.uses }
  after_op-Held (notifying value action) w h =
      rw (notify-on_task value action w)
        (on_task-Held (λ t. task_notify t value action) w (λ _. refl) (λ _ _. refl) h)

  -- No sequence of operations of a task object uses a handle that `create` has not given, or whose
  -- task `remove` has deleted, or NULL.
  pub after_all-Held :
      (ops : List Op) (w : World Task Call) → Held env w → Held env (after_all ops w)
  after_all-Held [] w h = h
  after_all-Held (op ∷ ops) w h = after_all-Held ops (after_op op w) (after_op-Held op w h)
