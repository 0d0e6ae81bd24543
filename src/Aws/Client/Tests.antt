-- ===== src/Aws/Client/Tests.antt =====
-- A concrete client for components/aws-iot-comp.
use esp32sx_c_plus_wrappers.Base.{[], ◌∷◌, false, none, refl, ◌≡◌}
use esp32sx_c_plus_wrappers.Base.Int.{pos}
use esp32sx_c_plus_wrappers.Driver.{Env, World}
use esp32sx_c_plus_wrappers.Aws.Client.{InitParams, AwsIot, Call, create_mutex, certificates, init}

abbrev env_ok : Env Call
env_ok = record {
  code = λ _ c. elim c [ create_mutex ↦ 3 | _ ↦ 0 ];
  int = λ _ _. pos 0;
  bytes = λ _ _. [];
}

abbrev plain : InitParams
plain = record { host = none; port = 0; root_ca = 0; device_cert = 0; device_key = 0; rest = 5 }

abbrev object : World AwsIot Call
object = record {
  dev = record {
    is_shadow = false;
    mqtt_init = plain;
    mqtt_connect = 0;
    shadow_init = plain;
    shadow_connect = record { thing_name = none; client_id = none; client_id_len = 0; rest = 0 };
    last_status = 0;
    yield_semaphore = 0;
    fault = false;
  };
  log = [];
}

started : (init env_ok (b'h' ∷ []) 8883 (certificates 1 2 3 object).1).0 ≡ 0
unfolding init certificates
started = refl
