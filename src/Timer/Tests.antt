-- ===== src/Timer/Tests.antt =====
-- Concrete timers for components/timer-comp.
use esp32sx_c_plus_wrappers.Base.{ℕ, List, [], ◌∷◌, ◌≡◌, refl, Bool, true}
use esp32sx_c_plus_wrappers.Base.Int.{pos}
use esp32sx_c_plus_wrappers.Driver.{Env, World}
use esp32sx_c_plus_wrappers.Timer as T
use esp32sx_c_plus_wrappers.Timer.{Timer, Call, start_timeout, autoreload, set_autoreload}
use esp32sx_c_plus_wrappers.Timer.Kinds.{
  Op, making, stopping, removing, reloading, alarming, all_of, run_all, run_all-kind,
}

-- The driver keeps the setting that was made last.
abbrev kept : List Call → Call → ℕ
kept (T.hw_set_auto_reload _ _ en ∷ _) (T.hw_get_auto_reload _ _) = en
kept _ _ = 0

abbrev env_ok : Env Call
env_ok = record { code = kept; int = λ _ _. pos 0; bytes = λ _ _. 6 ∷ [] }

abbrev object : Bool → World Timer Call
object soft = record {
  dev = record {
    config = 0;
    group = 1;
    timer_id = 1;
    args = 0;
    soft_timer = soft;
    soft_handle = 0;
  };
  log = [];
}

abbrev ops : List Op
ops = making 3 ∷ reloading ∷ stopping ∷ alarming 5 ∷ removing ∷ []

run_all-kind_example :
    ((run_all env_ok ops (object true)).dev.soft_timer ≡ true)
    × (all_of true (run_all env_ok ops (object true)).log ≡ true)
run_all-kind_example = run_all-kind env_ok ops (object true) refl
