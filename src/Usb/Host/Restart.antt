-- ===== src/Usb/Host/Restart.antt =====
-- What the task of components/usb-host-comp/host/usb_host.cpp does when the library has no clients.
use esp32sx_c_plus_wrappers.Base.{
  ℕ, zero, suc, ◌<◌, List, [], ◌∷◌, ◌==◌, if◌then◌else◌, Bool, true, false, ◌≡◌, ◌≢◌, refl, ap, ap₂,
  arith, sym, ◌∙◌, Bool-cases, inl, inr, get_or, ==_iff,
}
use esp32sx_c_plus_wrappers.Driver.{Env, World}
use esp32sx_c_plus_wrappers.Usb.Host.{
  Host, ClientEvent, Call, host_install, host_uninstall, client_register, client_deregister,
  device_free_all, lib_events, err_not_finished, given, register, init, free_all, on_no_clients,
  on_all_free, no_clients, all_free, poll, react, round,
}
use esp32sx_c_plus_wrappers.Usb.Host.Lifetime.{registered}

-- After one call that frees the devices and `n` more.
abbrev pub frees : ℕ → List Call → List Call
frees zero log = device_free_all ∷ log
frees (suc n) log = frees n (device_free_all ∷ log)

-- The library is taken down when its devices are free, and brought up again with a client. The
-- client the object held, which is none, is deregistered if all devices are reported free.
abbrev pub restarted : Bool → ℕ → List Call → List Call
restarted both n log =
    let up = client_register ∷ host_install ∷ host_uninstall ∷ frees n log in
    if both then client_deregister 0 ∷ up else up

module _ (env : Env Call) where
  -- The library has freed its devices by the call that follows `n` more.
  abbrev pub FreesAfter : ℕ → List Call → Type 0
  FreesAfter zero log = env.code log device_free_all ≢ err_not_finished
  FreesAfter (suc n) log =
      (env.code log device_free_all ≡ err_not_finished) × FreesAfter n (device_free_all ∷ log)

  free_all-ends :
      (n fuel : ℕ) (w : World Host Call)
      → FreesAfter n w.log
      → n < fuel
      → ((free_all env fuel w).0 ≡ true)
        × ((free_all env fuel w).1.dev ≡ w.dev)
        × ((free_all env fuel w).1.log ≡ frees n w.log)
  unfolding free_all
  free_all-ends n zero w h l = absurd (omega arith)
  free_all-ends zero (suc fuel) w h l = ground arith
  free_all-ends (suc n) (suc fuel) w h l =
      let e : (err_not_finished == err_not_finished) ≡ true = refl in
      rw (h.0, e)
        (free_all-ends n fuel (record w { log = device_free_all ∷ w.log }) h.1 (omega arith))

  -- Every registration succeeds, with a handle.
  abbrev pub Registers : Type 0
  Registers =
      (log : List Call)
      → (env.code log client_register ≡ 0) × (get_or (env.bytes log client_register) 0 0 ≢ 0)

  get_or-default : (b : List ℕ) (h : ℕ) → get_or b 0 0 ≢ 0 → get_or b 0 h ≡ get_or b 0 0
  get_or-default [] h e = absurd (e refl)
  get_or-default (x ∷ b) h e = refl

  given-default :
      Registers
      → (log : List Call) (h : ℕ)
      → given env log client_register h ≡ get_or (env.bytes log client_register) 0 0
  given-default reg log h =
      rw (reg log).0 (get_or-default (env.bytes log client_register) h (reg log).1)

  init-registers :
      Registers
      → (w : World Host Call)
      → (let w' = (init env false w).1 in
          (w'.dev.client_hdl ≡ registered env w'.log) × (registered env w'.log ≢ 0))
  unfolding init register
  init-registers reg w =
      let log = host_install ∷ w.log in
      let a = given-default reg log w.dev.client_hdl in
      let b = given-default reg log (registered env w.log) in
      (a ∙ sym b, λ z. (reg log).1 (sym b ∙ z))

  on_no_clients-registers :
      (n fuel : ℕ) (w : World Host Call)
      → Registers
      → FreesAfter n w.log
      → n < fuel
      → (let (ended, w') = on_no_clients env fuel w in
          (ended ≡ true)
          × (w'.dev.client_hdl ≡ registered env w'.log)
          × (registered env w'.log ≢ 0)
          × (w'.log ≡ client_register ∷ host_install ∷ host_uninstall ∷ frees n w.log))
  unfolding on_no_clients
  on_no_clients-registers n fuel w reg h l =
      let (e, _, freed) = free_all-ends n fuel w h l in
      let w' = (free_all env fuel w).1 in
      let (a, b) = init-registers reg (record w' { log = host_uninstall ∷ w'.log }) in
      rw e (refl, a, b, ap (λ log. client_register ∷ host_install ∷ host_uninstall ∷ log) freed)

  on_all_free-registered :
      (client : ℕ) (w : World Host Call)
      → client ≡ 0
      → registered env w.log ≢ 0
      → registered env (on_all_free env client w).1.log ≡ registered env w.log
  unfolding on_all_free
  on_all_free-registered client w z some_left = ground arith

  react-restarts :
      (n fuel client : ℕ) (w : World Host Call)
      → client ≡ 0
      → env.code w.log lib_events ≡ 0
      → no_clients env w.log ≡ true
      → Registers
      → FreesAfter n (lib_events ∷ w.log)
      → n < fuel
      → (let (ended, w') = react env fuel client w in
          (ended ≡ true)
          × (registered env w'.log ≢ 0)
          × (w'.dev.client_hdl ≡ (if all_free env w.log then 0 else registered env w'.log))
          × (w'.log ≡ restarted (all_free env w.log) n (lib_events ∷ w.log)))
  unfolding react
  react-restarts n fuel client w z live gone reg h l =
      let w1 : World Host Call = record w { log = lib_events ∷ w.log } in
      let (e, held, there, calls) = on_no_clients-registers n fuel w1 reg h l in
      let w2 = (on_no_clients env fuel w1).1 in
      let live' : (env.code w.log lib_events == 0) ≡ true = (==_iff _ _).1 live in
      elim (Bool-cases (all_free env w.log)) [
        | inl both ↦
            rw (live', gone, e, both)
              (
                refl,
                (λ no. there (sym (on_all_free-registered client w2 z there) ∙ no)),
                refl,
                ap₂ (λ c log. client_deregister c ∷ log) z calls,
              )
        | inr one ↦ rw (live', gone, e, one) (refl, there, held, calls)
      ]

  -- A round in which the library reports that it has no clients, to an object without one, ends if
  -- the library frees its devices in the end: the fuel needed is the number of calls until then.
  -- The library is uninstalled after these calls, installed again, and a client is registered with
  -- it, when every registration succeeds with a handle. The object holds that client, unless the
  -- library reported in the same answer that all devices are free: then NULL is deregistered, and
  -- the object holds none.
  pub round-restarts :
      (n fuel : ℕ) (es : List ClientEvent) (w : World Host Call)
      → w.dev.client_hdl ≡ 0
      → env.code w.log lib_events ≡ 0
      → no_clients env w.log ≡ true
      → Registers
      → FreesAfter n (lib_events ∷ w.log)
      → n < fuel
      → (let (ended, w') = round env fuel es w in
          (ended ≡ true)
          × (registered env w'.log ≢ 0)
          × (w'.dev.client_hdl ≡ (if all_free env w.log then 0 else registered env w'.log))
          × (w'.log ≡ restarted (all_free env w.log) n (lib_events ∷ w.log)))
  unfolding round poll react on_all_free
  round-restarts n fuel es w none_held live gone reg h l =
      let held' : (w.dev.client_hdl == 0) ≡ true = (==_iff _ _).1 none_held in
      rw held' (react-restarts n fuel w.dev.client_hdl w none_held live gone reg h l)
