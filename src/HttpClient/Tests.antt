-- ===== src/HttpClient/Tests.antt =====
-- A concrete client for components/http-client-comp.
use esp32sx_c_plus_wrappers.Base.{List, [], ◌∷◌, ◌≡◌, ◌↔◌, refl, true, arith}
use esp32sx_c_plus_wrappers.Base.Int.{pos}
use esp32sx_c_plus_wrappers.Driver.{Env, World}
use esp32sx_c_plus_wrappers.Driver.Handles.{AllAlive}
use esp32sx_c_plus_wrappers.HttpClient as H
use esp32sx_c_plus_wrappers.HttpClient.{HttpClient, Call, client_init, calling}
use esp32sx_c_plus_wrappers.HttpClient.Lifetime.{
  Op, initializing, requesting, handles, run_all, Ordered, run_all-AllAlive,
}

abbrev env_ok : Env Call
env_ok = record { code = λ _ _. 7; int = λ _ _. pos 200; bytes = λ _ _. [] }

-- A client 7 was made by the object.
abbrev made : World HttpClient Call
made = record { dev = record { handle = 7 }; log = client_init 1 ∷ [] }

abbrev ops : List Op
ops =
    requesting H.do_perform
    ∷ requesting H.get_status_code
    ∷ requesting H.client_cleanup
    ∷ initializing 2
    ∷ requesting H.do_perform
    ∷ []

-- A request after a `cleanup` is made with the handle of the client that is gone.
stale :
    (run_all env_ok (requesting H.client_cleanup ∷ requesting H.do_perform ∷ []) made).log
    ≡ calling H.do_perform 7 ∷ calling H.client_cleanup 7 ∷ client_init 1 ∷ []
unfolding H.cleanup H.perform
stale = refl

run_all-AllAlive_example :
    AllAlive (handles env_ok) (run_all env_ok ops made).log
    ↔ (AllAlive (handles env_ok) made.log × Ordered true ops)
run_all-AllAlive_example =
    run_all-AllAlive env_ok ops true made (λ log config. ground arith)
      (record { given = ground arith; lives = refl })
