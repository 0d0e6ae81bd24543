-- ===== src/Usb/Host/Lifetime.antt =====
-- The client's handle of components/usb-host-comp/host/usb_host.cpp.
use esp32sx_c_plus_wrappers.Base.{
  ℕ, zero, suc, List, [], ◌∷◌, ◌==◌, if◌then◌else◌, ◌&&◌, Bool, true, false, Option, none, some,
  get_or, ◌≡◌, ◌⊎◌, inl, inr, refl, arith, sym, ◌∙◌, Bool-cases,
}
use esp32sx_c_plus_wrappers.Driver.{Env, World}
use esp32sx_c_plus_wrappers.Usb.Host.{
  Host, ClientEvent, new_dev, dev_gone, Call, host_uninstall, client_register, device_free_all,
  lib_events, client_deregister, client_events, device_open, device_close, err_not_finished, given,
  register, init, parse_config, open_device, open_dev, close, tell_user, client_event,
  client_event_all, free_all, on_no_clients, on_all_free, no_clients, all_free, poll, react, round,
  rounds,
}

module _ (env : Env Call) where
  -- The client that is registered after a history, 0 if none is. The library can be uninstalled
  -- only when there is none.
  abbrev pub registered : List Call → ℕ
  registered [] = 0
  registered (client_register ∷ log) = given env log client_register (registered log)
  registered (client_deregister u ∷ log) =
      if env.code log (client_deregister u) == 0 && u == registered log then 0 else registered log
  registered (_ ∷ log) = registered log

  abbrev pub client_used : Call → Option ℕ
  client_used (client_deregister h) = some h
  client_used (client_events h) = some h
  client_used (device_open h _) = some h
  client_used (device_close h _) = some h
  client_used _ = none

  -- A client that is used is the registered one, or NULL, which the library refuses.
  abbrev pub UsesRegistered : Option ℕ → ℕ → Type 0
  UsesRegistered none h = Unit {0}
  UsesRegistered (some u) h = (u ≡ 0) ⊎ (u ≡ h)

  abbrev pub NeverStale : List Call → Type 0
  NeverStale [] = Unit {0}
  NeverStale (c ∷ log) = UsesRegistered (client_used c) (registered log) × NeverStale log

  -- The object holds the registered client, or none, and has used no stale one.
  pub record Held (w : World Host Call) : Type 0 where
    pub holds : (w.dev.client_hdl ≡ 0) ⊎ (w.dev.client_hdl ≡ registered w.log)
    pub uses : NeverStale w.log

  get_or-same :
      (b : List ℕ) (h k : ℕ)
      → (h ≡ 0) ⊎ (h ≡ k)
      → (get_or b 0 h ≡ 0) ⊎ (get_or b 0 h ≡ get_or b 0 k)
  get_or-same [] h k e = e
  get_or-same (x ∷ b) h k e = inr refl

  given-same :
      (log : List Call) (c : Call) (h k : ℕ)
      → (h ≡ 0) ⊎ (h ≡ k)
      → (given env log c h ≡ 0) ⊎ (given env log c h ≡ given env log c k)
  given-same log c h k e = elim (Bool-cases (env.code log c == 0)) [
    | inl good ↦ rw good (get_or-same (env.bytes log c) h k e)
    | inr bad ↦ rw bad e
  ]

  init-Held : (t : Bool) (w : World Host Call) → Held w → Held (init env t w).1
  unfolding init register
  init-Held true w h = record {
    holds = given-same _ _ _ _ h.holds;
    uses = (tt, (tt, (tt, h.uses)));
  }
  init-Held false w h = record { holds = given-same _ _ _ _ h.holds; uses = (tt, (tt, h.uses)) }

  client_event-Held :
      (e : ClientEvent) (w : World Host Call) → Held w → Held (client_event env e w).1
  unfolding client_event open_dev open_device parse_config close tell_user
  client_event-Held (new_dev a) w h = ground arith
  client_event-Held dev_gone w h = ground arith

  client_event_all-Held :
      (es : List ClientEvent) (w : World Host Call) → Held w → Held (client_event_all env es w).1
  unfolding client_event_all
  client_event_all-Held [] w h = h
  client_event_all-Held (e ∷ es) w h =
      client_event_all-Held es (client_event env e w).1 (client_event-Held e w h)

  free_all-Held : (fuel : ℕ) (w : World Host Call) → Held w → Held (free_all env fuel w).1
  unfolding free_all
  free_all-Held zero w h = h
  free_all-Held (suc fuel) w h =
      let w' : World Host Call = record w { log = device_free_all ∷ w.log } in
      let h' : Held w' = record { holds = h.holds; uses = (tt, h.uses) } in
      elim (Bool-cases (env.code w.log device_free_all == err_not_finished)) [
        | inl busy ↦ rw busy (free_all-Held fuel w' h')
        | inr free ↦ rw free h'
      ]

  on_no_clients-Held : (fuel : ℕ) (w : World Host Call) → Held w → Held (on_no_clients env fuel w).1
  unfolding on_no_clients
  on_no_clients-Held fuel w h =
      let (ended, w') = free_all env fuel w in
      let h' : Held w' = free_all-Held fuel w h in
      elim (Bool-cases ended) [
        | inl e ↦ rw e (
            init-Held false (record w' { log = host_uninstall ∷ w'.log })
              (record { holds = h'.holds; uses = (tt, h'.uses) }))
        | inr e ↦ rw e h'
      ]

  on_all_free-Held :
      (client : ℕ) (w : World Host Call)
      → (client ≡ 0) ⊎ (client ≡ registered w.log)
      → Held w
      → Held (on_all_free env client w).1
  unfolding on_all_free
  on_all_free-Held client w e h = record { holds = inl refl; uses = (e, h.uses) }

  client_event-client :
      (e : ClientEvent) (w : World Host Call)
      → (client_event env e w).1.dev.client_hdl ≡ w.dev.client_hdl
  unfolding client_event open_dev open_device parse_config close tell_user
  client_event-client (new_dev a) w = ground arith
  client_event-client dev_gone w = ground arith

  client_event_all-client :
      (es : List ClientEvent) (w : World Host Call)
      → (client_event_all env es w).1.dev.client_hdl ≡ w.dev.client_hdl
  unfolding client_event_all
  client_event_all-client [] w = refl
  client_event_all-client (e ∷ es) w =
      client_event_all-client es (client_event env e w).1 ∙ client_event-client e w

  poll-Held :
      (es : List ClientEvent) (w : World Host Call)
      → Held w
      → Held (poll env es w).1 × ((poll env es w).1.dev.client_hdl ≡ w.dev.client_hdl)
  unfolding poll
  poll-Held es w h = elim (Bool-cases (w.dev.client_hdl == 0)) [
    | inl e ↦ rw e (h, refl)
    | inr e ↦
        let w' : World Host Call = record w { log = client_events w.dev.client_hdl ∷ w.log } in
        rw e (
          client_event_all-Held es w' (record { holds = h.holds; uses = (h.holds, h.uses) }),
          client_event_all-client es w',
        )
  ]

  -- The library reports that it has no clients only when none is registered.
  abbrev pub IsHonest : Type 0
  IsHonest = (log : List Call) → no_clients env log ≡ true → registered log ≡ 0

  finish-Held :
      (client : ℕ) (ended flag : Bool) (w : World Host Call)
      → (client ≡ 0) ⊎ (client ≡ registered w.log)
      → Held w
      → (let r : Bool × World Host Call =
            if ended && flag then (true, (on_all_free env client w).1) else (ended, w) in
          Held r.1)
  finish-Held client true true w e h = on_all_free-Held client w e h
  finish-Held client true false w e h = h
  finish-Held client false flag w e h = h

  react-Held :
      IsHonest
      → (fuel client : ℕ) (w : World Host Call) → client ≡ w.dev.client_hdl
      → Held w
      → Held (react env fuel client w).1
  unfolding react
  react-Held honest fuel client w same h =
      let w' : World Host Call = record w { log = lib_events ∷ w.log } in
      let h' : Held w' = record { holds = h.holds; uses = (tt, h.uses) } in
      elim (Bool-cases (env.code w.log lib_events == 0)) [
        | inl live ↦ elim (Bool-cases (no_clients env w.log)) [
          | inl gone ↦
              let none_left : client ≡ 0 = ground (arith, honest w.log) in
              rw (live, gone)
                (finish-Held client (on_no_clients env fuel w').0 (all_free env w.log) _
                  (inl none_left) (on_no_clients-Held fuel w' h'))
          | inr some_left ↦
              rw (live, some_left)
                (finish-Held client true (all_free env w.log) w' (rw same h.holds) h')
        ]
        | inr dead ↦ rw dead h'
      ]

  round-Held :
      IsHonest
      → (fuel : ℕ) (es : List ClientEvent) (w : World Host Call) → Held w
      → Held (round env fuel es w).1
  unfolding round
  round-Held honest fuel es w h =
      let (h', kept) = poll-Held es w h in
      react-Held honest fuel w.dev.client_hdl (poll env es w).1 (sym kept) h'

  -- In any number of rounds of the task, whatever devices come and go and whatever the driver
  -- answers, the client that is used is the one that is registered, or NULL, never one that was
  -- deregistered or replaced. It is so when the library reports that it has no clients only if none
  -- is registered.
  pub rounds-Held :
      IsHonest
      → (fuel : ℕ) (all : List (List ClientEvent)) (w : World Host Call) → Held w
      → Held (rounds env fuel all w).1
  unfolding rounds
  rounds-Held honest fuel [] w h = h
  rounds-Held honest fuel (es ∷ rest) w h =
      let h' = round-Held honest fuel es w h in
      elim (Bool-cases (round env fuel es w).0) [
        | inl e ↦ rw e (rounds-Held honest fuel rest (round env fuel es w).1 h')
        | inr e ↦ rw e h'
      ]
