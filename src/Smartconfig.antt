-- ===== src/Smartconfig.antt =====
-- components/smartconfig-comp/smartconfig-comp.cpp: the calls of esp_smartconfig. The object has no
-- fields; printing is left out.
mod Tests
use esp32sx_c_plus_wrappers.Base.{ℕ, List, Bool, true}
use esp32sx_c_plus_wrappers.Driver.{Env, World, M, pure, ask, tell, ◌>>=◌, ◌>>◌}

pub data Call : Type 0 where
  smartconfig_start smartconfig_stop handler_register : Call
  esptouch_set_timeout set_type fast_mode get_rvd_data : ℕ → Call

-- The events of SC_EVENT; whether the credentials come by ESPTOUCH V2.
pub data Event : Type 0 where
  scan_done found_channel send_ack_done : Event
  got_ssid_pswd : Bool → Event

abbrev pub ConfigM : Type 0 → Type 0
ConfigM A = M (Unit {0}) Call A

module _ (env : Env Call) where
  -- The answer of esp_smartconfig_start is overwritten.
  pub start : ConfigM ℕ
  start = do tell env smartconfig_start; ask env handler_register

  unfoldable pub stop : ConfigM ℕ
  stop = ask env smartconfig_stop

  unfoldable pub timeout : ℕ → ConfigM ℕ
  timeout time_s = ask env (esptouch_set_timeout time_s)

  unfoldable pub type : ℕ → ConfigM ℕ
  type t = ask env (set_type t)

  unfoldable pub mode : ℕ → ConfigM ℕ
  mode enable = ask env (fast_mode enable)

  -- The code, and the bytes that are reserved.
  unfoldable pub received : ℕ → ConfigM (ℕ × List ℕ)
  received len = do
    bytes ← λ w. (env.bytes w.log (get_rvd_data len), w)
    code ← ask env (get_rvd_data len)
    pure (code, bytes)

  -- `event_handler`
  unfoldable pub on_event : Event → ConfigM (Unit {0})
  on_event (got_ssid_pswd true) = tell env (get_rvd_data 33)
  on_event _ = pure tt
