-- ===== src/Mqtt.antt =====
-- components/mqtt-comp/mqtt-comp.cpp: a client of esp-mqtt behind its handle, and the configuration
-- that it is made from.
pub mod Clients
mod Tests
use esp32sx_c_plus_wrappers.Base.{
  ℕ, List, [], ◌∷◌, ◌==◌, if◌then◌else◌, Bool, true, false, not, Option, none, some,
}
use esp32sx_c_plus_wrappers.Base.Int.{ℤ, is_neg}
use esp32sx_c_plus_wrappers.Driver.{
  Env, World, M, pure, ask, ask_int, tell, gets, modify, ◌>>=◌, ◌>>◌, ◌⨾◌,
}

-- The fields of `esp_mqtt_client_config_t` that the class sets. A text is none for NULL.
pub record Config : Type 0 where
  pub uri : Option (List ℕ)
  pub host : Option (List ℕ)
  pub port : ℕ
  pub transport : ℕ
  pub username : Option (List ℕ)
  pub password : Option (List ℕ)
  pub lwt_topic : Option (List ℕ)
  pub lwt_msg : Option (List ℕ)
  pub lwt_msg_len : ℤ
  pub lwt_qos : ℕ
  pub lwt_retain : Bool
  pub disable_auto_reconnect : Bool
  pub event_handle : ℕ

-- `client` is 0 for NULL. The flag `fault` is set by the use of a configuration that is NULL.
pub record Mqtt : Type 0 where
  pub client : ℕ
  pub mqtt_cfg : Option Config
  pub fault : Bool

pub data Call : Type 0 where
  client_init : Config → Call
  register_event : ℕ → ℕ → Call
  client_start client_stop client_disconnect client_reconnect client_destroy : ℕ → Call
  client_subscribe : ℕ → List ℕ → ℕ → Call
  client_unsubscribe : ℕ → List ℕ → Call
  client_publish : ℕ → List ℕ → List ℕ → ℤ → ℕ → Bool → Call
  client_set_uri : ℕ → List ℕ → Call

abbrev pub MqttM : Type 0 → Type 0
MqttM A = M Mqtt Call A

abbrev pub esp_fail : ℕ
esp_fail = 4294967295

-- `new esp_mqtt_client_config_t()`, with the transport that its zero stands for.
abbrev pub blank : Config
blank = record {
  uri = none;
  host = none;
  port = 0;
  transport = 0;
  username = none;
  password = none;
  lwt_topic = none;
  lwt_msg = none;
  lwt_msg_len = ℤ.pos 0;
  lwt_qos = 0;
  lwt_retain = false;
  disable_auto_reconnect = false;
  event_handle = 0;
}

-- `mqtt_cfg->… = …`
abbrev pub edit : (Config → Config) → MqttM (Unit {0})
edit f = modify (λ o. elim o.mqtt_cfg [
  | none ↦ record o { fault = true }
  | some c ↦ record o { mqtt_cfg = some (f c) }
])

-- `if (!mqtt_cfg) mqtt_cfg = new …`, then an edit.
abbrev pub edit_new : (Config → Config) → MqttM (Unit {0})
edit_new f = modify (λ o. elim o.mqtt_cfg [
  | none ↦ record o { mqtt_cfg = some (f blank) }
  | some c ↦ record o { mqtt_cfg = some (f c) }
])

pub init_uri : List ℕ → MqttM (Unit {0})
init_uri uri = edit_new (λ c. record c { uri = some uri })

pub init_host : List ℕ → ℕ → ℕ → MqttM (Unit {0})
init_host host port transport =
    edit_new (λ c. record c { transport = transport; host = some host; port = port })

pub init_config : Option Config → MqttM (Unit {0})
init_config config = modify (λ o. record o { mqtt_cfg = config })

pub credentials : List ℕ → List ℕ → MqttM (Unit {0})
credentials user pass = edit (λ c. record c { username = some user; password = some pass })

pub last_will : List ℕ → List ℕ → ℤ → ℕ → Bool → MqttM (Unit {0})
last_will topic msg len qos retain = edit (λ c. record c {
  lwt_topic = some topic;
  lwt_msg = some msg;
  lwt_msg_len = len;
  lwt_qos = qos;
  lwt_retain = retain;
})

pub auto_reconnect : Bool → MqttM (Unit {0})
auto_reconnect en = edit (λ c. record c { disable_auto_reconnect = not en })

pub add_events_handler : ℕ → MqttM (Unit {0})
add_events_handler handle = edit (λ c. record c { event_handle = handle })

module _ (env : Env Call) where
  -- `if (!client) { client = …; if (client == nullptr) return ESP_FAIL; }`
  need_client : Config → MqttM ℕ
  need_client config = do
    o ← gets (λ o. o)
    if o.client == 0
        then (do
          c ← ask env (client_init config)
          modify (λ o. record o { client = c })
          pure (if c == 0 then esp_fail else 0))
        else pure 0

  launch : ℕ → MqttM ℕ
  launch callback = do
    o ← gets (λ o. o)
    (if callback == 0 then pure 0 else ask env (register_event o.client callback))
        ⨾ ask env (client_start o.client)

  connect_with : Option Config → ℕ → MqttM ℕ
  unfolding need_client launch
  connect_with none callback = pure esp_fail
  connect_with (some config) callback = need_client config ⨾ launch callback

  -- `callback` is 0 if none is given.
  pub connect : ℕ → MqttM ℕ
  unfolding connect_with
  connect callback w = connect_with w.dev.mqtt_cfg callback w

  abbrev pub on_client : (ℕ → Call) → MqttM ℕ
  on_client call = do o ← gets (λ o. o); ask env (call o.client)

  -- A message's id, or a negative number for an error.
  abbrev pub message : (ℕ → Call) → MqttM ℕ
  message call = do
    o ← gets (λ o. o)
    id ← ask_int env (call o.client)
    pure (if is_neg id then esp_fail else 0)

  pub stop : MqttM ℕ
  stop = on_client client_stop

  pub disconnect : MqttM ℕ
  disconnect = on_client client_disconnect

  pub reconnect : MqttM ℕ
  reconnect = on_client client_reconnect

  pub subscribe : List ℕ → ℕ → MqttM ℕ
  subscribe topic qos = message (λ h. client_subscribe h topic qos)

  pub unsubscribe : List ℕ → MqttM ℕ
  unsubscribe topic = message (λ h. client_unsubscribe h topic)

  pub publish : List ℕ → List ℕ → ℤ → ℕ → Bool → MqttM ℕ
  publish topic payload len qos retain =
      message (λ h. client_publish h topic payload len qos retain)

  pub set_uri : List ℕ → MqttM ℕ
  set_uri uri = on_client (λ h. client_set_uri h uri)

  -- Also the destructor.
  pub deinit : MqttM ℕ
  deinit = do
    o ← gets (λ o. o)
    err ← ask env (client_destroy o.client)
    modify (λ o. record o { client = 0 })
    pure err
