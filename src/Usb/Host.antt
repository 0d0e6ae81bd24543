-- ===== src/Usb/Host.antt =====
-- components/usb-host-comp/host/usb_host.cpp: the client of the USB host library, the device that it
-- has open, and the task that handles the library's events and starts the library again after a
-- device has gone.
pub mod Lifetime
pub mod Restart
mod Tests
use esp32sx_c_plus_wrappers.Base.{
  ℕ, zero, suc, List, [], ◌∷◌, ◌==◌, if◌then◌else◌, Bool, true, false, not, ◌&&◌, get_or,
}
use esp32sx_c_plus_wrappers.Driver.{Env, World, M, pure, ask, tell, gets, modify, ◌>>=◌, ◌>>◌}

-- Handles are numbers, 0 for NULL.
pub record Host : Type 0 where
  pub client_hdl : ℕ
  pub dev_hdl : ℕ
  pub has_client_event_cb : Bool

-- `usb_host_client_event_msg_t`: a new device with its address, or a device that has gone.
pub data ClientEvent : Type 0 where
  new_dev : ℕ → ClientEvent
  dev_gone : ClientEvent

-- `client_register` and `device_open` also answer with the handle, as the first of their bytes.
-- `lib_events` answers with the flags NO_CLIENTS and ALL_FREE, 0 for one that is not set.
pub data Call : Type 0 where
  host_install host_uninstall client_register device_free_all lib_events create_task : Call
  client_deregister client_events : ℕ → Call
  device_open device_close : ℕ → ℕ → Call
  get_device_descriptor get_config_descriptor : ℕ → Call
  user : ClientEvent → Call

abbrev pub HostM : Type 0 → Type 0
HostM A = M Host Call A

abbrev pub err_not_finished : ℕ
err_not_finished = 0x10c

module _ (env : Env Call) where
  -- The handle that a call writes when it succeeds, over what was there.
  abbrev pub given : List Call → Call → ℕ → ℕ
  given log c h = if env.code log c == 0 then get_or (env.bytes log c) 0 h else h

  register : HostM (Unit {0})
  register w = (
    tt,
    record {
      dev = record w.dev { client_hdl = given w.log client_register w.dev.client_hdl };
      log = client_register ∷ w.log;
    },
  )

  -- No error is looked at.
  pub init : Bool → HostM Bool
  unfolding register
  init create_tasks = do
    tell env host_install
    register
    if create_tasks then tell env create_task else pure tt
    pure true

  pub parse_config : HostM (Unit {0})
  parse_config = do
    o ← gets (λ o. o)
    tell env (get_device_descriptor o.dev_hdl)
    tell env (get_config_descriptor o.dev_hdl)

  open_device : ℕ → HostM (Unit {0})
  open_device address w =
      let c = device_open w.dev.client_hdl address in
      (tt, record { dev = record w.dev { dev_hdl = given w.log c w.dev.dev_hdl }; log = c ∷ w.log })

  pub open_dev : ℕ → HostM Bool
  unfolding open_device parse_config
  open_dev address = do open_device address; parse_config; pure true

  pub close : HostM (Unit {0})
  close = do o ← gets (λ o. o); tell env (device_close o.client_hdl o.dev_hdl)

  tell_user : ClientEvent → HostM (Unit {0})
  tell_user e = do o ← gets (λ o. o); if o.has_client_event_cb then tell env (user e) else pure tt

  -- `_client_event_callback`: a device is opened before the user hears of it, and closed after.
  pub client_event : ClientEvent → HostM (Unit {0})
  unfolding open_dev close tell_user
  client_event (new_dev address) = do open_dev address; tell_user (new_dev address)
  client_event dev_gone = do tell_user dev_gone; close

  -- The library calls back for each event that it has for the client.
  pub client_event_all : List ClientEvent → HostM (Unit {0})
  client_event_all [] w = (tt, w)
  client_event_all (e ∷ es) w = client_event_all es (client_event e w).1

  -- `do { if (usb_host_device_free_all() != ESP_ERR_NOT_FINISHED) break; } while (1)`; the fuel
  -- bounds the calls, and the result says whether the loop has ended.
  pub free_all : ℕ → HostM Bool
  free_all zero w = (false, w)
  free_all (suc fuel) w =
      let w' : World Host Call = record w { log = device_free_all ∷ w.log } in
      let later = free_all fuel w' in
      if env.code w.log device_free_all == err_not_finished then later else (true, w')

  pub on_no_clients : ℕ → HostM Bool
  unfolding free_all init
  on_no_clients fuel w =
      let (ended, w') = free_all fuel w in
      if ended
      then (true, (init false (record w' { log = host_uninstall ∷ w'.log })).1)
      else (false, w')

  pub on_all_free : ℕ → HostM (Unit {0})
  on_all_free client_hdl = do
    tell env (client_deregister client_hdl)
    modify (λ o. record o { client_hdl = 0 })

  abbrev pub no_clients : List Call → Bool
  no_clients log = not (get_or (env.bytes log lib_events) 0 0 == 0)

  abbrev pub all_free : List Call → Bool
  all_free log = not (get_or (env.bytes log lib_events) 1 0 == 0)

  -- `if (client_hdl) usb_host_client_handle_events(client_hdl, 1);` with what the library has.
  pub poll : List ClientEvent → HostM (Unit {0})
  unfolding client_event_all
  poll events w =
      if w.dev.client_hdl == 0
      then (tt, w)
      else client_event_all events (record w { log = client_events w.dev.client_hdl ∷ w.log })

  -- The library's own events; the result is false if the fuel of `free_all` ran out.
  pub react : ℕ → ℕ → HostM Bool
  unfolding on_no_clients on_all_free
  react fuel client w =
      let w' : World Host Call = record w { log = lib_events ∷ w.log } in
      if env.code w.log lib_events == 0
      then (let (ended, w'') = if no_clients w.log then on_no_clients fuel w' else (true, w') in
          if ended && all_free w.log then (true, (on_all_free client w'').1) else (ended, w''))
      else (true, w')

  -- A round of `client_async_seq_task`. The client's handle is read once, at its start.
  pub round : ℕ → List ClientEvent → HostM Bool
  unfolding poll react
  round fuel events w = react fuel w.dev.client_hdl (poll events w).1

  pub rounds : ℕ → List (List ClientEvent) → HostM Bool
  unfolding round
  rounds fuel [] w = (true, w)
  rounds fuel (es ∷ rest) w =
      let (ended, w') = round fuel es w in
      let later = rounds fuel rest w' in if ended then later else (false, w')
