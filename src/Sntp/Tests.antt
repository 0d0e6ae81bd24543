-- ===== src/Sntp/Tests.antt =====
-- A concrete service for components/sntp-client-comp.
use esp32sx_c_plus_wrappers.Base.{refl, [], ◌≡◌}
use esp32sx_c_plus_wrappers.Base.Int.{pos}
use esp32sx_c_plus_wrappers.Driver.{Env, World}
use esp32sx_c_plus_wrappers.Sntp.{Sntp, Call, init, destroy}

abbrev env_ok : Env Call
env_ok = record { code = λ _ _. 1; int = λ _ _. pos 0; bytes = λ _ _. [] }

abbrev running : World Sntp Call
running = record { dev = record { semaphore = 1; server = [] }; log = [] }

-- An object that has been destroyed is not started again.
not_restarted : (init env_ok 3600 (destroy env_ok running).1).1 ≡ (destroy env_ok running).1
unfolding init destroy
not_restarted = refl
