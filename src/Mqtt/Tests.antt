-- ===== src/Mqtt/Tests.antt =====
-- A concrete client for components/mqtt-comp.
use esp32sx_c_plus_wrappers.Base.{List, [], ◌∷◌, false, none, refl}
use esp32sx_c_plus_wrappers.Base.Int.{pos}
use esp32sx_c_plus_wrappers.Driver.{Env, World}
use esp32sx_c_plus_wrappers.Mqtt.{Mqtt, Call, client_init}
use esp32sx_c_plus_wrappers.Mqtt.Clients.{
  Op, giving_uri, connecting, subscribing, publishing, destroying, HoldsOnly, run_all,
  run_all-HoldsOnly,
}

abbrev env_ok : Env Call
env_ok = record {
  code = λ log c. elim c [ client_init config ↦ 6 | _ ↦ 0 ];
  int = λ _ _. pos 1;
  bytes = λ _ _. [];
}

abbrev fresh : World Mqtt Call
fresh = record { dev = record { client = 0; mqtt_cfg = none; fault = false }; log = [] }

-- Two connections of one object, and a publication after the end.
abbrev session : List Op
session =
    giving_uri (1 ∷ [])
    ∷ connecting 7
    ∷ connecting 0
    ∷ subscribing (2 ∷ []) 1
    ∷ destroying
    ∷ publishing (2 ∷ []) (3 ∷ []) (pos 1) 0 false
    ∷ connecting 0
    ∷ []

run_all-HoldsOnly_example : HoldsOnly env_ok (run_all env_ok session fresh)
run_all-HoldsOnly_example =
    run_all-HoldsOnly env_ok session fresh (record { only = refl; uses = tt })
