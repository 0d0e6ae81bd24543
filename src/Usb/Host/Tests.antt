-- ===== src/Usb/Host/Tests.antt =====
-- A concrete host library for components/usb-host-comp/host.
use esp32sx_c_plus_wrappers.Base.{
  ℕ, List, [], ◌∷◌, ◌==◌, if◌then◌else◌, true, false, ◌≡◌, ◌≢◌, refl, arith, inl,
}
use esp32sx_c_plus_wrappers.Base.Int.{pos}
use esp32sx_c_plus_wrappers.Driver.{Env, World}
use esp32sx_c_plus_wrappers.Usb.Host.{
  Host, new_dev, dev_gone, Call, client_register, client_deregister, device_free_all, lib_events,
  no_clients, all_free, round, rounds,
}
use esp32sx_c_plus_wrappers.Usb.Host.Lifetime.{registered, Held, rounds-Held}
use esp32sx_c_plus_wrappers.Usb.Host.Restart.{restarted, round-restarts}

-- The client that a history leaves, where client 9 is given each time.
live : List Call → ℕ
live [] = 0
live (client_register ∷ log) = 9
live (client_deregister u ∷ log) = if u == live log then 0 else live log
live (_ ∷ log) = live log

-- All devices are free all the time, and there are no clients when none is registered.
env_live : Env Call
unfolding live
env_live = record {
  code = λ _ _. 0;
  int = λ _ _. pos 0;
  bytes = λ log c. elim c [ lib_events ↦ (if live log == 0 then 1 else 0) ∷ 1 ∷ [] | _ ↦ 9 ∷ [] ];
}

registered-live : (log : List Call) → registered env_live log ≡ live log
unfolding env_live
registered-live [] = refl
registered-live (client_register ∷ log) = refl
registered-live (client_deregister u ∷ log) = rw (registered-live log)
registered-live (_ ∷ log) = registered-live log

env_live-IsHonest : (log : List Call) → no_clients env_live log ≡ true → registered env_live log ≡ 0
unfolding env_live
env_live-IsHonest log h = rw (registered-live log) (ground arith)

abbrev idle_host : World Host Call
idle_host = record {
  dev = record { client_hdl = 0; dev_hdl = 0; has_client_event_cb = false };
  log = [];
}

rounds-Held_example :
    Held env_live
      (rounds env_live 4 ((new_dev 1 ∷ []) ∷ (new_dev 1 ∷ []) ∷ (dev_gone ∷ []) ∷ []) idle_host).1
rounds-Held_example =
    rounds-Held env_live env_live-IsHonest 4
      ((new_dev 1 ∷ []) ∷ (new_dev 1 ∷ []) ∷ (dev_gone ∷ []) ∷ []) idle_host
      (record { holds = inl refl; uses = tt })

-- Both flags at once; the devices are free at the second question.
abbrev env_both : Env Call
env_both = record {
  code = λ log c. elim c [
    | device_free_all ↦ elim log [ [] ↦ 0 | d ∷ _ ↦ elim d [ device_free_all ↦ 0 | _ ↦ 0x10c ] ]
    | _ ↦ 0
  ];
  int = λ _ _. pos 0;
  bytes = λ log c. elim c [ lib_events ↦ 1 ∷ 1 ∷ [] | _ ↦ 9 ∷ [] ];
}

round-restarts_example :
    (let (ended, w') = round env_both 2 [] idle_host in
      (ended ≡ true)
      × (registered env_both w'.log ≢ 0)
      × (w'.dev.client_hdl
          ≡ (if all_free env_both idle_host.log then 0 else registered env_both w'.log))
      × (w'.log ≡ restarted true 1 (lib_events ∷ [])))
round-restarts_example =
    round-restarts env_both 1 2 [] idle_host refl refl refl (λ _. (refl, omega arith))
      (refl, omega arith) (omega arith)
