-- ===== src/Usb/Msc/Faults.antt =====
-- What components/usb-host-comp/msc/usb_msc.cpp has accessed out of range stays noted, whichever
-- transfers complete afterwards.
use esp32sx_c_plus_wrappers.Base.{
  ℕ, ◌+◌, ◌%◌, List, [], ◌∷◌, true, ◌≡◌, ap, ◌∙◌, arith, ltb, Bool-cases, inl, inr, get_or,
}
use esp32sx_c_plus_wrappers.Driver.{Env, World}
use esp32sx_c_plus_wrappers.Usb.Msc.{
  Msc, Call, Hook, Event, idle, max_lun, resetting, inquiry, read_capacity, read_10, write_10,
  Transfer, event_cb, data_cb, csw_cb, cbw_cb, capacity_cb, inquiry_cb, max_luns_cb, run_hook, csw,
  send_command, get_capacity, inquire, set_capacity, emit_event, on_csw, on_cbw, on_data, take_data,
  transfer_done,
}
use esp32sx_c_plus_wrappers.Usb.Msc.Steps.{run_hook_dev}
use esp32sx_c_plus_wrappers.Usb.Msc.Enumeration.{complete}

-- Something has been accessed out of range.
abbrev pub Faulty : World Msc Call → Type 0
Faulty w = w.dev.fault ≡ true

module _ (env : Env Call) where
  run_hook-Faulty : (h : Hook) (w : World Msc Call) → Faulty w → Faulty (run_hook env h w).1
  run_hook-Faulty h w f = ap (λ o. o.fault) (run_hook_dev env h w) ∙ f

  csw-Faulty : (w : World Msc Call) → Faulty w → Faulty (csw env w).1
  unfolding csw
  csw-Faulty w f = ground arith

  get_capacity-Faulty :
      (lun : ℕ) (w : World Msc Call) → Faulty w → Faulty (get_capacity env lun w).1
  unfolding get_capacity send_command csw
  get_capacity-Faulty lun w f = ground arith

  get_capacity-null :
      (lun : ℕ) (w : World Msc Call) → w.dev.ep_out ≡ 0 → Faulty (get_capacity env lun w).1
  unfolding get_capacity send_command csw
  get_capacity-null lun w null = ground arith

  inquire-Faulty : (w : World Msc Call) → Faulty w → Faulty (inquire env w).1
  unfolding inquire send_command csw
  inquire-Faulty w f = ground arith

  emit_event-Faulty :
      (event : Event) (t : Transfer) (w : World Msc Call)
      → Faulty w
      → Faulty (emit_event env event t w).1
  unfolding emit_event
  emit_event-Faulty idle t w f = f
  emit_event-Faulty max_lun t w f =
      let w0 : World Msc Call = record w {
        dev = record (w.dev) { luns = get_or t.data_buffer 8 0; lun = 0 };
      } in
      let w1 = (get_capacity env 0 w0).1 in
      let w2 = (run_hook env max_luns_cb w1).1 in
      run_hook-Faulty event_cb w2 (run_hook-Faulty max_luns_cb w1 (get_capacity-Faulty 0 w0 f))
  emit_event-Faulty resetting t w f = f
  emit_event-Faulty inquiry t w f = run_hook-Faulty inquiry_cb w f
  emit_event-Faulty read_capacity t w f = elim (Bool-cases (ltb w.dev.lun w.dev.luns)) [
    | inl more ↦ rw more (get_capacity-Faulty ((w.dev.lun + 1) % 256) w f)
    | inr done ↦
        let w1 = (inquire env w).1 in
        let w2 = (run_hook env capacity_cb w1).1 in
        rw done (run_hook-Faulty event_cb w2 (run_hook-Faulty capacity_cb w1 (inquire-Faulty w f)))
  ]
  emit_event-Faulty read_10 t w f = ground arith
  emit_event-Faulty write_10 t w f = ground arith

  emit_event-null :
      (t : Transfer) (w : World Msc Call) → w.dev.ep_out ≡ 0 → Faulty (emit_event env max_lun t w).1
  unfolding emit_event
  emit_event-null t w null =
      let w0 : World Msc Call = record w {
        dev = record (w.dev) { luns = get_or t.data_buffer 8 0; lun = 0 };
      } in
      let w1 = (get_capacity env 0 w0).1 in
      let w2 = (run_hook env max_luns_cb w1).1 in
      run_hook-Faulty event_cb w2 (run_hook-Faulty max_luns_cb w1 (get_capacity-null 0 w0 null))

  on_csw-Faulty : (t : Transfer) (w : World Msc Call) → Faulty w → Faulty (on_csw env t w).1
  unfolding on_csw
  on_csw-Faulty t w f =
      run_hook-Faulty csw_cb (emit_event env w.dev.event t w).1
        (emit_event-Faulty w.dev.event t w f)

  take_data-Faulty :
      (event : Event) (t : Transfer) (w : World Msc Call)
      → Faulty w
      → Faulty (take_data env event t w).1
  unfolding take_data set_capacity csw
  take_data-Faulty idle t w f = f
  take_data-Faulty max_lun t w f = f
  take_data-Faulty resetting t w f = f
  take_data-Faulty inquiry t w f = ground arith
  take_data-Faulty read_capacity t w f = ground arith
  take_data-Faulty read_10 t w f = ground arith
  take_data-Faulty write_10 t w f = f

  on_data-Faulty : (t : Transfer) (w : World Msc Call) → Faulty w → Faulty (on_data env t w).1
  unfolding on_data
  on_data-Faulty t w f =
      let w1 = (take_data env w.dev.event t w).1 in
      let w2 = (run_hook env data_cb w1).1 in
      run_hook-Faulty event_cb w2 (run_hook-Faulty data_cb w1 (take_data-Faulty w.dev.event t w f))

  on_cbw-Faulty : (t : Transfer) (w : World Msc Call) → Faulty w → Faulty (on_cbw env t w).1
  unfolding on_cbw
  on_cbw-Faulty t w f = run_hook-Faulty cbw_cb w f

  transfer_done-Faulty :
      (t : Transfer) (w : World Msc Call) → Faulty w → Faulty (transfer_done env t w).1
  unfolding transfer_done
  transfer_done-Faulty t w f =
      let a = on_csw-Faulty t w f in
      let b = on_cbw-Faulty t w f in let c = on_data-Faulty t w f in ground (arith, a, b, c)

  pub complete-Faulty :
      (ts : List Transfer) (w : World Msc Call) → Faulty w → Faulty (complete env ts w)
  complete-Faulty [] w f = f
  complete-Faulty (t ∷ ts) w f =
      complete-Faulty ts (transfer_done env t w).1 (transfer_done-Faulty t w f)

  -- An answer to MAX LUN, when the outward endpoint is unknown.
  pub on_csw-null :
      (t : Transfer) (w : World Msc Call)
      → w.dev.ep_out ≡ 0
      → w.dev.event ≡ max_lun
      → Faulty (on_csw env t w).1
  unfolding on_csw
  on_csw-null t w null e =
      run_hook-Faulty csw_cb (emit_event env w.dev.event t w).1
        (ap (λ event. (emit_event env event t w).1.dev.fault) e ∙ emit_event-null t w null)
