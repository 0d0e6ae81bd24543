-- ===== src/Mqtt/Clients.antt =====
-- The clients that an object of components/mqtt-comp/mqtt-comp.cpp makes and destroys.
use esp32sx_c_plus_wrappers.Base.{
  ℕ, List, [], ◌∷◌, ◌==◌, if◌then◌else◌, Bool, Option, none, some, ◌≡◌, ◌⊎◌, inl, inr, arith,
  Bool-cases,
}
use esp32sx_c_plus_wrappers.Base.Int.{ℤ}
use esp32sx_c_plus_wrappers.Driver.{Env, World}
use esp32sx_c_plus_wrappers.Mqtt.{
  Config, Mqtt, Call, client_init, register_event, client_start, client_stop, client_disconnect,
  client_reconnect, client_destroy, client_subscribe, client_unsubscribe, client_publish,
  client_set_uri, init_uri, init_host, init_config, credentials, last_will, auto_reconnect,
  add_events_handler, need_client, launch, connect_with, connect, stop, disconnect, reconnect,
  subscribe, unsubscribe, publish, set_uri, deinit,
}

pub data Op : Type 0 where
  giving_uri setting_uri unsubscribing : List ℕ → Op
  giving_host : List ℕ → ℕ → ℕ → Op
  giving_config : Option Config → Op
  giving_credentials : List ℕ → List ℕ → Op
  giving_will : List ℕ → List ℕ → ℤ → ℕ → Bool → Op
  reconnecting_itself : Bool → Op
  handling connecting : ℕ → Op
  stopping disconnecting reconnecting destroying : Op
  subscribing : List ℕ → ℕ → Op
  publishing : List ℕ → List ℕ → ℤ → ℕ → Bool → Op

module _ (env : Env Call) where
  -- The clients that were made and not destroyed, newest first.
  abbrev pub without : ℕ → List ℕ → List ℕ
  without h [] = []
  without h (c ∷ cs) = if c == h then cs else c ∷ without h cs

  abbrev pub clients : List Call → List ℕ
  clients [] = []
  clients (client_init config ∷ log) =
      if env.code log (client_init config) == 0
      then clients log
      else env.code log (client_init config) ∷ clients log
  clients (client_destroy h ∷ log) = without h (clients log)
  clients (_ ∷ log) = clients log

  abbrev pub client_used : Call → Option ℕ
  client_used (client_init _) = none
  client_used (register_event h _) = some h
  client_used (client_start h) = some h
  client_used (client_stop h) = some h
  client_used (client_disconnect h) = some h
  client_used (client_reconnect h) = some h
  client_used (client_destroy h) = some h
  client_used (client_subscribe h _ _) = some h
  client_used (client_unsubscribe h _) = some h
  client_used (client_publish h _ _ _ _ _) = some h
  client_used (client_set_uri h _) = some h

  -- What is used is NULL or the only client there is.
  abbrev pub UsesClient : Option ℕ → List ℕ → Type 0
  UsesClient none cs = Unit {0}
  UsesClient (some h) cs = (h ≡ 0) ⊎ (cs ≡ h ∷ [])

  abbrev pub NeverStale : List Call → Type 0
  NeverStale [] = Unit {0}
  NeverStale (c ∷ log) = UsesClient (client_used c) (clients log) × NeverStale log

  -- The object holds the only client there is, or none and there is none.
  pub record HoldsOnly (w : World Mqtt Call) : Type 0 where
    pub only : clients w.log ≡ (if w.dev.client == 0 then [] else w.dev.client ∷ [])
    pub uses : NeverStale w.log

  abbrev pub run : Op → World Mqtt Call → World Mqtt Call
  run (giving_uri uri) w = (init_uri uri w).1
  run (giving_host host port transport) w = (init_host host port transport w).1
  run (giving_config config) w = (init_config config w).1
  run (giving_credentials user pass) w = (credentials user pass w).1
  run (giving_will topic msg len qos retain) w = (last_will topic msg len qos retain w).1
  run (reconnecting_itself en) w = (auto_reconnect en w).1
  run (handling h) w = (add_events_handler h w).1
  run (connecting callback) w = (connect env callback w).1
  run stopping w = (stop env w).1
  run disconnecting w = (disconnect env w).1
  run reconnecting w = (reconnect env w).1
  run destroying w = (deinit env w).1
  run (subscribing topic qos) w = (subscribe env topic qos w).1
  run (unsubscribing topic) w = (unsubscribe env topic w).1
  run (publishing topic payload len qos retain) w = (publish env topic payload len qos retain w).1
  run (setting_uri uri) w = (set_uri env uri w).1

  abbrev pub run_all : List Op → World Mqtt Call → World Mqtt Call
  run_all [] w = w
  run_all (op ∷ ops) w = run_all ops (run op w)

  need_client-HoldsOnly :
      (config : Config) (w : World Mqtt Call) → HoldsOnly w → HoldsOnly (need_client env config w).1
  unfolding need_client
  need_client-HoldsOnly config w h = ground arith

  launch-HoldsOnly :
      (callback : ℕ) (w : World Mqtt Call) → HoldsOnly w → HoldsOnly (launch env callback w).1
  unfolding launch
  launch-HoldsOnly callback w h = ground arith

  connect_with-HoldsOnly :
      (config : Option Config) (callback : ℕ) (w : World Mqtt Call)
      → HoldsOnly w
      → HoldsOnly (connect_with env config callback w).1
  unfolding connect_with
  connect_with-HoldsOnly none callback w h = h
  connect_with-HoldsOnly (some config) callback w h =
      let made = need_client-HoldsOnly config w h in
      elim (Bool-cases ((need_client env config w).0 == 0)) [
        | inl good ↦ rw good (launch-HoldsOnly callback (need_client env config w).1 made)
        | inr bad ↦ rw bad made
      ]

  run-HoldsOnly : (op : Op) (w : World Mqtt Call) → HoldsOnly w → HoldsOnly (run op w)
  unfolding init_uri init_host init_config credentials last_will auto_reconnect add_events_handler
      connect stop disconnect reconnect subscribe unsubscribe publish set_uri deinit
  run-HoldsOnly (connecting callback) w h = connect_with-HoldsOnly w.dev.mqtt_cfg callback w h
  run-HoldsOnly op w h = ground arith

  -- In any sequence of operations an object has at most one client alive, the one that it holds:
  -- none is lost, and none is used after it was destroyed.
  pub run_all-HoldsOnly :
      (ops : List Op) (w : World Mqtt Call) → HoldsOnly w → HoldsOnly (run_all ops w)
  run_all-HoldsOnly [] w h = h
  run_all-HoldsOnly (op ∷ ops) w h = run_all-HoldsOnly ops (run op w) (run-HoldsOnly op w h)
