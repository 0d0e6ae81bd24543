-- ===== src/Events/Tests.antt =====
-- Concrete loops for components/events-comp.
use esp32sx_c_plus_wrappers.Base.{[], ◌≡◌, refl, false}
use esp32sx_c_plus_wrappers.Base.Int.{pos}
use esp32sx_c_plus_wrappers.Driver.{Env, World}
use esp32sx_c_plus_wrappers.Events.{EventLoop, Call, deinit}

abbrev env_ok : Env Call
env_ok = record { code = λ _ _. 0; int = λ _ _. pos 0; bytes = λ _ _. [] }

abbrev object : World EventLoop Call
object = record { dev = record { event_loop = 6; default_running = false }; log = [] }

deleted : (deinit env_ok object).0 ≡ 0
unfolding deinit
deleted = refl
