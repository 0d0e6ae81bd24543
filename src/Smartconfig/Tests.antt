-- ===== src/Smartconfig/Tests.antt =====
-- Concrete answers for components/smartconfig-comp.
use esp32sx_c_plus_wrappers.Base.{[], ◌∷◌, ◌≡◌, refl, true}
use esp32sx_c_plus_wrappers.Base.Int.{pos}
use esp32sx_c_plus_wrappers.Driver.{Env, World}
use esp32sx_c_plus_wrappers.Smartconfig.{
  Call, smartconfig_start, handler_register, get_rvd_data, got_ssid_pswd, start, on_event,
}

-- A configuration that does not start.
abbrev env_fails : Env Call
env_fails = record {
  code = λ log c. elim c [ smartconfig_start ↦ 259 | _ ↦ 0 ];
  int = λ _ _. pos 0;
  bytes = λ _ _. [];
}

abbrev object : World (Unit {0}) Call
object = record { dev = tt; log = [] }

-- `start` says ESP_OK.
start_hides_error :
    start env_fails object
    ≡ (0, record { dev = tt; log = handler_register ∷ smartconfig_start ∷ [] })
unfolding start
start_hides_error = refl

reads_rvd_data : (on_event env_fails (got_ssid_pswd true) object).1.log ≡ get_rvd_data 33 ∷ []
unfolding on_event
reads_rvd_data = refl
