-- ===== src/Tasks.antt =====
-- components/tasks-comp: a FreeRTOS task behind its handle, where 0 is NULL. Its loop and its
-- arguments are numbers. Static stacks in external memory are not configured.
pub mod Safety
pub mod Stats
mod Tests
use esp32sx_c_plus_wrappers.Base.{
  ℕ, List, [], ◌∷◌, ◌==◌, if◌then◌else◌, Bool, true, false, not, Option, none, some, ◌≡◌, ◌≢◌, refl,
  arith,
}
use esp32sx_c_plus_wrappers.Driver.{
  Env, World, M, pure, ask, ask_bytes, tell, gets, modify, ◌>>=◌, ◌>>◌,
}

pub record Task : Type 0 where
  pub task_handle : ℕ
  pub idle_handle : ℕ
  pub args : ℕ
  pub loop : Option ℕ

-- `task_create` answers with pdTRUE or not, and with a handle as its bytes' first element.
pub data Call : Type 0 where
  get_idle_handle : Call
  task_create : ℕ → ℕ → Call
  task_delete task_suspend task_resume task_notify_give : ℕ → Call
  task_notify : ℕ → ℕ → ℕ → Call
  call_loop : ℕ → Call
  get_number_of_tasks task_list : Call
  task_get_info : ℕ → Bool → ℕ → Call
  notify_wait_for : ℕ → Call
  notify_take : Bool → ℕ → Call

abbrev pub TaskM : Type 0 → Type 0
TaskM A = M Task Call A

abbrev pub first_or : ℕ → List ℕ → ℕ
first_or h (x ∷ _) = x
first_or h [] = h

module _ (env : Env Call) where
  pub create : ℕ → ℕ → ℕ → TaskM Bool
  create stack prio args = do
    idle ← ask env get_idle_handle
    modify (λ o. record o { idle_handle = idle; args = args })
    made ← λ w. (env.bytes w.log (task_create stack prio), w)
    code ← ask env (task_create stack prio)
    modify (λ o. if code == 1 then record o { task_handle = first_or o.task_handle made } else o)
    pure (code == 1)

  pub remove : TaskM (Unit {0})
  remove = do
    o ← gets (λ o. o)
    if o.task_handle == 0 then pure tt else tell env (task_delete o.task_handle)
    modify (λ o. record o { task_handle = 0 })

  abbrev pub on_task : (ℕ → Call) → TaskM (Unit {0})
  on_task call = do
    o ← gets (λ o. o)
    if o.task_handle == 0 then pure tt else tell env (call o.task_handle)

  abbrev pub suspend : TaskM (Unit {0})
  suspend = on_task task_suspend

  abbrev pub resume : TaskM (Unit {0})
  resume = on_task task_resume

  abbrev pub run_loop : Option ℕ → TaskM (Unit {0})
  run_loop none = pure tt
  run_loop (some cb) = tell env (call_loop cb)

  -- One call of `run` by the task's own loop.
  abbrev pub run : TaskM (Unit {0})
  run w = run_loop w.dev.loop w

  abbrev pub on_loop : ℕ → TaskM (Unit {0})
  on_loop cb = modify (λ o. record o { loop = some cb })

  pub notify : ℕ → ℕ → TaskM Bool
  notify value action = do
    o ← gets (λ o. o)
    if o.task_handle == 0
        then pure false
        else (do code ← ask env (task_notify o.task_handle value action); pure (not (code == 0)))

  pub give : TaskM Bool
  give = do
    o ← gets (λ o. o)
    if o.task_handle == 0
        then pure false
        else (do code ← ask env (task_notify_give o.task_handle); pure (not (code == 0)))

  -- The bytes of the task's status; a handle of NULL asks for the caller's.
  unfoldable pub status : Bool → ℕ → TaskM (List ℕ)
  status watermark state = do
    o ← gets (λ o. o)
    ask_bytes env (task_get_info o.task_handle watermark state)

  -- Whether a notification came within `wait` ticks, and its value's bytes: the calling task's.
  unfoldable pub notify_wait : ℕ → TaskM (Bool × List ℕ)
  notify_wait wait = do
    bytes ← λ w. (env.bytes w.log (notify_wait_for wait), w)
    code ← ask env (notify_wait_for wait)
    pure (not (code == 0), bytes)

  unfoldable pub take : Bool → ℕ → TaskM ℕ
  take clear wait = ask env (notify_take clear wait)

  unfoldable pub count : TaskM ℕ
  count = ask env get_number_of_tasks

  unfoldable pub list : TaskM (List ℕ)
  list = ask_bytes env task_list
