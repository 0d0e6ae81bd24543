-- ===== src/Usb/Acm/Tests.antt =====
-- A concrete serial adapter for components/usb-host-comp/acm.
use esp32sx_c_plus_wrappers.Base.{
  ℕ, ◌≤◌, [], ◌∷◌, true, false, ◌≡◌, ◌↔◌, refl, arith, some, none, ◌+◌, replicate,
}
use esp32sx_c_plus_wrappers.Base.Int.{pos}
use esp32sx_c_plus_wrappers.Driver.{Env, World}
use esp32sx_c_plus_wrappers.Usb.Descriptors.{Endpoint}
use esp32sx_c_plus_wrappers.Usb.Acm.{
  Acm, Call, transfer_alloc, init, send_line_coding, set_control_line, ask_line_coding, in_data,
  out_data,
}
use esp32sx_c_plus_wrappers.Usb.Acm.Requests.{
  last_asked, coding, lines, report, decode-requests, send_line_coding-InBounds,
}
use esp32sx_c_plus_wrappers.Usb.Acm.Ledger.{
  Port, here, next, reading, writing, Completes, allocated, freed, refused, transfers_end,
}

-- Every call is answered with success, and a transfer that is asked for is number 5.
abbrev env_ok : Env Call
env_ok = record {
  code = λ log c. elim c [ transfer_alloc n ↦ 5 | _ ↦ 0 ];
  int = λ _ _. pos 0;
  bytes = λ _ _. [];
}

abbrev same_len : ℕ → ℕ → ℕ
same_len n _ = n

abbrev ep_in : Endpoint
ep_in = record { address = 0x82; max_packet = 64 }

abbrev ep_out : Endpoint
ep_out = record { address = 0x02; max_packet = 64 }

abbrev blank : World Acm Call
blank = record {
  dev = record {
    xfer_ctrl = 0;
    ctrl_size = 0;
    itf_num = 0;
    ep_int = none;
    ep_in = none;
    ep_out = none;
    connected = false;
    has_event_cb = false;
    fault = false;
  };
  log = [];
}

abbrev open_port : World Acm Call
open_port = record blank {
  dev = record blank.dev { ep_in = some ep_in; ep_out = some ep_out; connected = true };
}

decode-requests_example :
    (last_asked (send_line_coding env_ok same_len 115200 0 0 8 blank).1.log
      ≡ some (coding 115200 0 0 8))
    × (last_asked (set_control_line env_ok same_len true false blank).1.log
        ≡ some (lines true false))
    × (last_asked (ask_line_coding env_ok same_len blank).1.log ≡ some (report 7))
decode-requests_example =
    decode-requests env_ok same_len 115200 0 0 8 true false blank (omega arith)

send_line_coding-InBounds_example :
    ((send_line_coding env_ok same_len 9600 0 0 8 (init env_ok same_len 8 blank).1).1.dev.fault
      ≡ false)
    ↔ (16 ≤ 8)
send_line_coding-InBounds_example =
    send_line_coding-InBounds env_ok same_len 8 9600 0 0 8 blank refl (omega arith)

-- Data of 65 bytes for a transfer of 64.
out_data_past : (out_data env_ok same_len (replicate 65 7) open_port).1.dev.fault ≡ true
unfolding out_data
out_data_past = refl

abbrev start : Port
start = record { world = open_port; pending = [] }

transfers_end_example :
    (let t : Port = record {
      world = (out_data env_ok same_len (1 ∷ 2 ∷ []) (in_data env_ok same_len 64 open_port).1).1;
      pending = 5 ∷ 5 ∷ [];
    } in
      (u : Port) × Completes env_ok same_len t u
      × (u.pending ≡ [])
      × ((k : ℕ)
          → (allocated env_ok k u.world.log ≡ allocated env_ok k t.world.log)
            × (refused env_ok k u.world.log ≡ refused env_ok k t.world.log)
            × (allocated env_ok k u.world.log
                ≡ freed env_ok k u.world.log + refused env_ok k u.world.log)))
unfolding in_data out_data
transfers_end_example =
    transfers_end env_ok same_len {s = start} (next (next here (reading 64)) (writing (1 ∷ 2 ∷ [])))
      (λ k. refl) refl
