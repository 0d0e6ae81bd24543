-- ===== src/Usb/Msc/Commands.antt =====
-- The commands that components/usb-host-comp/msc/usb_msc.cpp sends while it asks the units, as the
-- device reads them.
use esp32sx_c_plus_wrappers.Base.{
  ℕ, zero, suc, ◌+◌, ◌*◌, ◌%◌, List, [], ◌∷◌, if◌then◌else◌, ltb, true, ◌≡◌, ap, ◌∙◌, arith, Option,
  some, get_or, Bool-cases, inl, inr,
}
use esp32sx_c_plus_wrappers.Base.Bytes.{read_le32, bswap32}
use esp32sx_c_plus_wrappers.Driver.{Env, World}
use esp32sx_c_plus_wrappers.Usb.Wire.{init_cbw, cbw_bytes}
use esp32sx_c_plus_wrappers.Usb.Wire.Device.{Request, decode}
use esp32sx_c_plus_wrappers.Usb.Msc.{
  Msc, Call, Hook, Transfer, submit, max_lun, read_capacity, event_cb, data_cb, csw_cb, capacity_cb,
  max_luns_cb, run_hook, csw, send_command, get_capacity, inquire, set_capacity, emit_event, on_csw,
  on_cbw, on_data, take_data,
}

-- The transfers to the device that carry bytes, newest first: the endpoint, and what the device
-- reads in them.
abbrev pub commands : List Call → List (ℕ × Option Request)
commands [] = []
commands (submit t ep n (b ∷ bs) ∷ log) = (ep, decode (b ∷ bs)) ∷ commands log
commands (_ ∷ log) = commands log

-- READ CAPACITY(10) of a unit: eight bytes to the host.
abbrev pub capacity_request : ℕ → Request
capacity_request lun = record {
  tag = 0x1234;
  lun = lun;
  to_host = true;
  opcode = 0x25;
  lba = 0;
  blocks = 0;
  bytes = 8;
}

-- INQUIRY of unit 0: 36 bytes to the host. Its fifth byte, the length, stands where other commands
-- have bits 8 to 15 of a block address.
abbrev pub inquiry_request : Request
inquiry_request = record {
  tag = 0x1234;
  lun = 0;
  to_host = true;
  opcode = 0x12;
  lba = 36 * 256;
  blocks = 0;
  bytes = 36;
}

-- What is asked for when the status of a unit's capacity has come.
abbrev pub next_request : Msc → Request
next_request o = if ltb o.lun o.luns then capacity_request ((o.lun + 1) % 256) else inquiry_request

module _ (env : Env Call) where
  commands-run_hook :
      (h : Hook) (w : World Msc Call) → commands (run_hook env h w).1.log ≡ commands w.log
  unfolding run_hook
  commands-run_hook h w = ground arith

  commands-csw : (w : World Msc Call) → commands (csw env w).1.log ≡ commands w.log
  unfolding csw
  commands-csw w = ground arith

  pub commands-on_cbw :
      (t : Transfer) (w : World Msc Call) → commands (on_cbw env t w).1.log ≡ commands w.log
  unfolding on_cbw
  commands-on_cbw t w = commands-run_hook _ w

  commands-get_capacity :
      (lun : ℕ) (w : World Msc Call)
      → commands (get_capacity env lun w).1.log
        ≡ (w.dev.ep_out, some (capacity_request lun)) ∷ commands w.log
  unfolding get_capacity send_command csw decode cbw_bytes init_cbw
  commands-get_capacity lun w = ground arith

  commands-inquire :
      (w : World Msc Call)
      → commands (inquire env w).1.log ≡ (w.dev.ep_out, some inquiry_request) ∷ commands w.log
  unfolding inquire send_command csw decode cbw_bytes init_cbw
  commands-inquire w = ground arith

  commands-emit_event :
      (t : Transfer) (w : World Msc Call)
      → commands (emit_event env read_capacity t w).1.log
        ≡ (w.dev.ep_out, some (next_request w.dev)) ∷ commands w.log
  unfolding emit_event
  commands-emit_event t w = elim (Bool-cases (ltb w.dev.lun w.dev.luns)) [
    | inl more ↦ rw more (commands-get_capacity ((w.dev.lun + 1) % 256) w)
    | inr done ↦
        let w1 = (inquire env w).1 in
        let w2 = (run_hook env capacity_cb w1).1 in
        rw done
          (commands-run_hook event_cb w2 ∙ (commands-run_hook capacity_cb w1 ∙ commands-inquire w))
  ]

  emit_event_max_lun_commands :
      (t : Transfer) (w : World Msc Call)
      → commands (emit_event env max_lun t w).1.log
        ≡ (w.dev.ep_out, some (capacity_request 0)) ∷ commands w.log
  unfolding emit_event
  emit_event_max_lun_commands t w =
      let w0 : World Msc Call = record w {
        dev = record (w.dev) { luns = get_or t.data_buffer 8 0; lun = 0 };
      } in
      let w1 = (get_capacity env 0 w0).1 in
      let w2 = (run_hook env max_luns_cb w1).1 in
      commands-run_hook event_cb w2
      ∙ (commands-run_hook max_luns_cb w1 ∙ commands-get_capacity 0 w0)

  pub commands-on_csw :
      (t : Transfer) (w : World Msc Call)
      → w.dev.event ≡ read_capacity
      → commands (on_csw env t w).1.log ≡ (w.dev.ep_out, some (next_request w.dev)) ∷ commands w.log
  unfolding on_csw
  commands-on_csw t w e =
      commands-run_hook csw_cb (emit_event env w.dev.event t w).1
      ∙ (ap (λ event. commands (emit_event env event t w).1.log) e ∙ commands-emit_event t w)

  pub on_csw_max_lun_commands :
      (t : Transfer) (w : World Msc Call)
      → w.dev.event ≡ max_lun
      → commands (on_csw env t w).1.log ≡ (w.dev.ep_out, some (capacity_request 0)) ∷ commands w.log
  unfolding on_csw
  on_csw_max_lun_commands t w e =
      commands-run_hook csw_cb (emit_event env w.dev.event t w).1
      ∙ (ap (λ event. commands (emit_event env event t w).1.log) e
          ∙ emit_event_max_lun_commands t w)

  commands-set_capacity :
      (count size : ℕ) (w : World Msc Call)
      → commands (set_capacity env count size w).1.log ≡ commands w.log
  unfolding set_capacity csw
  commands-set_capacity count size w = ground arith

  pub commands-on_data :
      (t : Transfer) (w : World Msc Call)
      → w.dev.event ≡ read_capacity
      → commands (on_data env t w).1.log ≡ commands w.log
  unfolding on_data
  commands-on_data t w e =
      let w1 = (take_data env w.dev.event t w).1 in
      let w2 = (run_hook env data_cb w1).1 in
      let count = bswap32 (read_le32 t.data_buffer 0) in
      let size = bswap32 (read_le32 t.data_buffer 4) in
      commands-run_hook event_cb w2
      ∙ (commands-run_hook data_cb w1
          ∙ (ap (λ event. commands (take_data env event t w).1.log) e
              ∙ commands-set_capacity count size w))

-- The capacities of the first units, asked in order.
abbrev pub capacities : ℕ → ℕ → List (ℕ × Option Request)
capacities ep zero = []
capacities ep (suc k) = (ep, some (capacity_request k)) ∷ capacities ep k
