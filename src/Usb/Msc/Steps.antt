-- ===== src/Usb/Msc/Steps.antt =====
-- What each step of components/usb-host-comp/msc/usb_msc.cpp does to the object, with transfers
-- that can be allocated.
use esp32sx_c_plus_wrappers.Base.{
  ℕ, ◌+◌, ◌%◌, List, if◌then◌else◌, ltb, false, ◌≡◌, ◌≢◌, ◌<◌, ap, ◌∙◌, arith, set, Bool-cases, inl,
  inr, get_or,
}
use esp32sx_c_plus_wrappers.Base.Bytes.{read_le32, bswap32}
use esp32sx_c_plus_wrappers.Driver.{Env, World}
use esp32sx_c_plus_wrappers.Usb.Wire.{ScsiCmd10}
use esp32sx_c_plus_wrappers.Usb.Msc.{
  Msc, Call, Hook, Transfer, max_lun, inquiry, read_capacity, transfer_alloc, event_cb, data_cb,
  csw_cb, capacity_cb, max_luns_cb, run_hook, csw, send_command, get_capacity, inquire,
  set_capacity, emit_event, on_csw, on_cbw, on_data, take_data,
}

-- The heap always has room for a transfer.
abbrev pub Allocates : Env Call → Type 0
Allocates env = (log : List Call) (size : ℕ) → env.code log (transfer_alloc size) ≢ 0

-- Nothing was accessed out of range, and the device's outward endpoint is known.
abbrev pub Sound : Msc → Type 0
Sound o = (o.fault ≡ false) × (o.ep_out ≢ 0)

-- The state after the status of a capacity command: on to the next unit, or to the inquiry.
abbrev pub next_unit : Msc → Msc
next_unit o =
    if ltb o.lun o.luns
    then record o { lun = (o.lun + 1) % 256; event = read_capacity }
    else record o { event = inquiry }

module _ (env : Env Call) where
  pub run_hook_dev : (h : Hook) (w : World Msc Call) → (run_hook env h w).1.dev ≡ w.dev
  unfolding run_hook
  run_hook_dev h w = ground arith

  pub csw_dev : (w : World Msc Call) → (csw env w).1.dev ≡ w.dev
  unfolding csw
  csw_dev w = ground arith

  pub on_cbw_dev : (t : Transfer) (w : World Msc Call) → (on_cbw env t w).1.dev ≡ w.dev
  unfolding on_cbw
  on_cbw_dev t w = ground arith

  module _ (room : Allocates env) where
    send_command_dev :
        (lun : ℕ) (c : ScsiCmd10) (len : ℕ) (w : World Msc Call)
        → Sound w.dev
        → (send_command env lun c len w).1.dev ≡ w.dev
    unfolding send_command
    send_command_dev lun c len w sound = ground (arith, room w.log 64, sound.0, sound.1)

    get_capacity_dev :
        (lun : ℕ) (w : World Msc Call)
        → Sound w.dev
        → (get_capacity env lun w).1.dev ≡ record (w.dev) { lun = lun; event = read_capacity }
    unfolding get_capacity
    get_capacity_dev lun w sound = ground (arith, room w.log 64, sound.0, sound.1)

    inquire_dev :
        (w : World Msc Call)
        → Sound w.dev
        → (inquire env w).1.dev ≡ record (w.dev) { event = inquiry }
    unfolding inquire
    inquire_dev w sound = ground (arith, room w.log 64, sound.0, sound.1)

    set_capacity_dev :
        (count size : ℕ) (w : World Msc Call)
        → Sound w.dev
        → w.dev.lun < 4
        → (set_capacity env count size w).1.dev ≡ record (w.dev) {
          block_count = set w.dev.block_count w.dev.lun count;
          block_size = set w.dev.block_size w.dev.lun size;
        }
    unfolding set_capacity
    set_capacity_dev count size w sound h = ground (arith, sound.0)

    emit_event_dev :
        (t : Transfer) (w : World Msc Call)
        → Sound w.dev
        → (emit_event env read_capacity t w).1.dev ≡ next_unit w.dev
    unfolding emit_event
    emit_event_dev t w sound = elim (Bool-cases (ltb w.dev.lun w.dev.luns)) [
      | inl more ↦ rw more (get_capacity_dev ((w.dev.lun + 1) % 256) w sound)
      | inr done ↦
          rw done (run_hook_dev event_cb _ ∙ (run_hook_dev capacity_cb _ ∙ inquire_dev w sound))
    ]

    emit_event_max_lun_dev :
        (t : Transfer) (w : World Msc Call)
        → Sound w.dev
        → (emit_event env max_lun t w).1.dev
          ≡ record (w.dev) { luns = get_or t.data_buffer 8 0; lun = 0; event = read_capacity }
    unfolding emit_event
    emit_event_max_lun_dev t w sound =
        let w' : World Msc Call = record w {
          dev = record (w.dev) { luns = get_or t.data_buffer 8 0; lun = 0 };
        } in
        run_hook_dev event_cb _ ∙ (run_hook_dev max_luns_cb _ ∙ get_capacity_dev 0 w' sound)

    pub on_csw_dev :
        (t : Transfer) (w : World Msc Call)
        → Sound w.dev
        → w.dev.event ≡ read_capacity
        → (on_csw env t w).1.dev ≡ next_unit w.dev
    unfolding on_csw
    on_csw_dev t w sound e =
        run_hook_dev csw_cb _
        ∙ (ap (λ event. (emit_event env event t w).1.dev) e ∙ emit_event_dev t w sound)

    pub on_csw_max_lun_dev :
        (t : Transfer) (w : World Msc Call)
        → Sound w.dev
        → w.dev.event ≡ max_lun
        → (on_csw env t w).1.dev
          ≡ record (w.dev) { luns = get_or t.data_buffer 8 0; lun = 0; event = read_capacity }
    unfolding on_csw
    on_csw_max_lun_dev t w sound e =
        run_hook_dev csw_cb _
        ∙ (ap (λ event. (emit_event env event t w).1.dev) e ∙ emit_event_max_lun_dev t w sound)

    pub on_data_dev :
        (t : Transfer) (w : World Msc Call)
        → Sound w.dev
        → w.dev.event ≡ read_capacity
        → w.dev.lun < 4
        → (on_data env t w).1.dev ≡ record (w.dev) {
          block_count = set w.dev.block_count w.dev.lun (bswap32 (read_le32 t.data_buffer 0));
          block_size = set w.dev.block_size w.dev.lun (bswap32 (read_le32 t.data_buffer 4));
        }
    unfolding on_data
    on_data_dev t w sound e h =
        run_hook_dev event_cb _
        ∙ (run_hook_dev data_cb _
            ∙ (ap (λ event. (take_data env event t w).1.dev) e
                ∙ set_capacity_dev (bswap32 (read_le32 t.data_buffer 0))
                    (bswap32 (read_le32 t.data_buffer 4)) w sound h))
