-- ===== src/Eth/Tests.antt =====
-- Concrete drivers for components/eth-comp.
use esp32sx_c_plus_wrappers.Base.{[], ◌∷◌, arith, true, ◌≡◌, ◌⊎◌, refl}
use esp32sx_c_plus_wrappers.Base.Int.{pos}
use esp32sx_c_plus_wrappers.Driver.{Env, World}
use esp32sx_c_plus_wrappers.Eth.{
  g_speed, g_mac_addr, new_netif_glue, start, stop, deinit, query, Eth, Call, dhcpc_stop,
  set_ip_info, set_config, err_already_stopped,
}
use esp32sx_c_plus_wrappers.Eth.Lifetime.{Gives, Absent, session, run_sessions, run_sessions-Absent}
use esp32sx_c_plus_wrappers.Eth.Address.{Netif, no_address, no_info, netif, set_config-fails}

-- The DHCP client has been stopped before.
abbrev env_stopped : Env Call
env_stopped = record {
  code = λ _ c. elim c [ dhcpc_stop n ↦ err_already_stopped | _ ↦ 0 ];
  int = λ _ _. pos 0;
  bytes = λ _ _. [];
}

-- The addresses are refused.
abbrev env_refusing : Env Call
env_refusing = record {
  code = λ _ c. elim c [ set_ip_info n i ↦ 0x5001 | _ ↦ 0 ];
  int = λ _ _. pos 0;
  bytes = λ _ _. [];
}

abbrev port : World Eth Call
port = record {
  dev = record {
    mac = 1;
    phy = 2;
    eth_netif = 3;
    eth_handle = 4;
    glue_handle = 5;
    pin_phy_power = 12;
    pin_phy_reset = 5;
  };
  log = [];
}

abbrev before : Netif
before = record { dhcp = true; info = record { ip = 7; gw = 8; netmask = 9 }; dns1 = 10; dns2 = 11 }

set_config-fails_example :
    (let s' = netif env_refusing before (set_config env_refusing 5 6 7 8 9 port).1.log in
      (s'.dns1 ≡ 10)
      × (s'.dns2 ≡ 11)
      × ((s'.info ≡ before.info) ⊎ ((no_address 5 ≡ true) × (s'.info ≡ no_info))))
unfolding set_config
set_config-fails_example = set_config-fails env_refusing before 5 6 7 8 9 port refl

-- A driver 7 and a glue 9 each time.
abbrev env_gives : Env Call
env_gives = record {
  code = λ _ c. elim c [ new_netif_glue d ↦ 9 | _ ↦ 0 ];
  int = λ _ _. pos 0;
  bytes = λ _ _. 7 ∷ [];
}

env_gives-Gives : Gives env_gives
env_gives-Gives = record {
  driver_given = λ log m p ok. (7, refl, ground arith);
  glue_given = λ log d. ground arith;
}

port-Absent : Absent env_gives port
port-Absent = record { no_driver = refl; no_glue = refl; driver_uses = tt; glue_uses = tt }

sessions_fine : (run_sessions env_gives ((g_speed ∷ g_mac_addr ∷ []) ∷ [] ∷ []) port).0 ≡ 0
unfolding run_sessions session start stop deinit query
sessions_fine = refl

run_sessions-Absent_example :
    Absent env_gives (run_sessions env_gives ((g_speed ∷ g_mac_addr ∷ []) ∷ [] ∷ []) port).1
run_sessions-Absent_example =
    run_sessions-Absent env_gives ((g_speed ∷ g_mac_addr ∷ []) ∷ [] ∷ []) port env_gives-Gives
      port-Absent sessions_fine
