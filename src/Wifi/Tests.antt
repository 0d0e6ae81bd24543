-- ===== src/Wifi/Tests.antt =====
-- Concrete requests for components/wifi-comp.
use esp32sx_c_plus_wrappers.Base.{ℕ, List, [], ◌∷◌, true, false, ◌≡◌, refl, some, none}
use esp32sx_c_plus_wrappers.Base.Int.{pos}
use esp32sx_c_plus_wrappers.Driver.{Env, World}
use esp32sx_c_plus_wrappers.Wifi as W
use esp32sx_c_plus_wrappers.Wifi.{Wifi, Call, IpInfo}
use esp32sx_c_plus_wrappers.Wifi.Modes.{
  Request, access_point, station, interfaces, driver_mode, all_wanted, enable_all,
  enable_all-interfaces,
}

abbrev env_ok : Env Call
env_ok = record {
  code = λ log c. elim c [ W.create_default_ap ↦ 11 | W.create_default_sta ↦ 12 | _ ↦ 0 ];
  int = λ _ _. pos 0;
  bytes = λ _ _. [];
}

abbrev object : ℕ → World Wifi Call
object netif_ap = record {
  dev = record { mode = W.off; netif_ap = netif_ap; netif_sta = 0 };
  log = [];
}

abbrev password : List ℕ
password = 1 ∷ 2 ∷ 3 ∷ 4 ∷ 5 ∷ 6 ∷ 7 ∷ 8 ∷ []

abbrev requests : List Request
requests = station (some (66 ∷ [])) none true ∷ access_point (65 ∷ []) (some password) 3 ∷ []

all_enabled : (enable_all env_ok requests (object 0)).0 ≡ 0
unfolding enable_all W.enable_ap W.enable_sta
all_enabled = refl

enable_all-interfaces_example :
    (driver_mode env_ok (enable_all env_ok requests (object 0)).1.log
      ≡ (enable_all env_ok requests (object 0)).1.dev.mode)
    × (interfaces (driver_mode env_ok (enable_all env_ok requests (object 0)).1.log)
        ≡ all_wanted (false, false) requests)
enable_all-interfaces_example = enable_all-interfaces env_ok requests (object 0) refl all_enabled
