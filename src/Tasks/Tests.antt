-- ===== src/Tasks/Tests.antt =====
-- A concrete task for components/tasks-comp.
use esp32sx_c_plus_wrappers.Base.{List, [], ◌∷◌, refl, none, ◌≡◌}
use esp32sx_c_plus_wrappers.Base.Int.{pos}
use esp32sx_c_plus_wrappers.Driver.{Env, World}
use esp32sx_c_plus_wrappers.Tasks.{
  Task, Call, task_delete, task_notify, call_loop, task_create, get_idle_handle, create, remove,
  notify, give,
}
use esp32sx_c_plus_wrappers.Tasks.Safety.{
  Op, creating, removing, suspending, running, giving, looping, notifying, after_all,
}

abbrev env_ok : Env Call
env_ok = record { code = λ _ _. 1; int = λ _ _. pos 0; bytes = λ _ _. 6 ∷ [] }

abbrev object : World Task Call
object = record {
  dev = record { task_handle = 0; idle_handle = 0; args = 0; loop = none };
  log = [];
}

abbrev ops : List Op
ops = giving ∷ creating 2048 5 0 ∷ looping 3 ∷ running ∷ notifying 1 2 ∷ removing ∷ suspending ∷ []

-- Nothing is done to a task before it was made, nor after it was removed.
history :
    (after_all env_ok ops object).log
    ≡ task_delete 6 ∷ task_notify 6 1 2 ∷ call_loop 3 ∷ task_create 2048 5 ∷ get_idle_handle ∷ []
unfolding create remove notify give
history = refl
