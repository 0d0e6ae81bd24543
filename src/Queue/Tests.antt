-- ===== src/Queue/Tests.antt =====
-- A concrete queue for components/queue-comp.
use esp32sx_c_plus_wrappers.Base.{List, [], ◌∷◌, refl}
use esp32sx_c_plus_wrappers.Base.Int.{pos}
use esp32sx_c_plus_wrappers.Driver.{Env, World}
use esp32sx_c_plus_wrappers.Queue.{Queue, Call, queue_create}
use esp32sx_c_plus_wrappers.Queue.Safety.{
  Op, creating, removing, sending, receiving, Held, run_all, run_all-Held,
}

abbrev env_ok : Env Call
env_ok = record {
  code = λ log c. elim c [ queue_create _ _ ↦ 6 | _ ↦ 1 ];
  int = λ _ _. pos 0;
  bytes = λ _ _. [];
}

abbrev object : World Queue Call
object = record { dev = record { queue_handle = 0 }; log = [] }

object-Held : Held env_ok object
object-Held = record { holds = refl; uses = tt }

abbrev ops : List Op
ops = creating 4 1 ∷ sending (7 ∷ []) 10 ∷ receiving 10 ∷ removing ∷ sending (8 ∷ []) 10 ∷ []

run_all-Held_example : Held env_ok (run_all env_ok ops object)
run_all-Held_example = run_all-Held env_ok ops object object-Held
