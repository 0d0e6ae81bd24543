-- ===== src/Aws/Client.antt =====
-- components/aws-iot-comp: the parameters of the client and its connection, for the two kinds of
-- object, a plain one and one for a device shadow. What the task does is in the parent module.
pub mod Start
mod Tests
use esp32sx_c_plus_wrappers.Base.{
  ℕ, ◌%◌, ◌^◌, List, [], ◌∷◌, ◌==◌, if◌then◌else◌, Bool, true, false, ◌&&◌, ◌||◌, not, Option, none,
  some, length,
}
use esp32sx_c_plus_wrappers.Driver.{Env, World, M, pure, ask, tell, gets, modify, ◌>>=◌, ◌>>◌}

-- The fields that the class sets of `IoT_Client_Init_Params` and `ShadowInitParameters_t`; `rest`
-- stands for the others.
pub record InitParams : Type 0 where
  pub host : Option (List ℕ)
  pub port : ℕ
  pub root_ca : ℕ
  pub device_cert : ℕ
  pub device_key : ℕ
  pub rest : ℕ

-- `ShadowConnectParameters_t`
pub record ShadowConnectParams : Type 0 where
  pub thing_name : Option (List ℕ)
  pub client_id : Option (List ℕ)
  pub client_id_len : ℕ
  pub rest : ℕ

-- `mqtt_connect` is the plain connection's parameters, which the class does not look into. The flag
-- `fault` is set when a semaphore that is NULL is given.
pub record AwsIot : Type 0 where
  pub is_shadow : Bool
  pub mqtt_init : InitParams
  pub mqtt_connect : ℕ
  pub shadow_init : InitParams
  pub shadow_connect : ShadowConnectParams
  pub last_status : ℕ
  pub yield_semaphore : ℕ
  pub fault : Bool

pub data Call : Type 0 where
  create_mutex : Call
  semaphore_give : ℕ → Call
  semaphore_take : ℕ → ℕ → Call
  shadow_init_client mqtt_init_client : InitParams → Call
  -- `new Task`, `onLoop` and `create`
  create_task : Call
  shadow_connect_client : ShadowConnectParams → Call
  mqtt_connect_client : ℕ → Call
  set_autoreconnect : Bool → Call
  mqtt_subscribe : List ℕ → ℕ → Call
  -- topic, `qos`, payload
  mqtt_publish : List ℕ → ℕ → List ℕ → Call
  shadow_update : Option (List ℕ) → List ℕ → Call

abbrev pub AwsM : Type 0 → Type 0
AwsM A = M AwsIot Call A

-- `IoT_Error_t` is an `int`: FAILURE is -1, NULL_VALUE_ERROR -2 and MQTT_REQUEST_TIMEOUT_ERROR -28,
-- as bit patterns.
abbrev pub failure : ℕ
failure = 0xffffffff

abbrev pub null_value_error : ℕ
null_value_error = 0xfffffffe

abbrev pub request_timeout_error : ℕ
request_timeout_error = 0xffffffe4

abbrev pub qos1 : ℕ
qos1 = 1

unfoldable pub config_mqtt : InitParams → ℕ → AwsM (Unit {0})
config_mqtt params connect = modify (λ o. record o { mqtt_init = params; mqtt_connect = connect })

unfoldable pub config_shadow : InitParams → ShadowConnectParams → AwsM (Unit {0})
config_shadow params connect =
    modify (λ o. record o { shadow_init = params; shadow_connect = connect })

-- `root_ca` is the certificate that is linked into the program.
abbrev pub with_certificates : ℕ → ℕ → ℕ → InitParams → InitParams
with_certificates root_ca cert key p = record p {
  root_ca = root_ca;
  device_cert = cert;
  device_key = key;
}

pub certificates : ℕ → ℕ → ℕ → AwsM (Unit {0})
certificates root_ca cert key = modify (λ o.
    if o.is_shadow
    then record o { shadow_init = with_certificates root_ca cert key o.shadow_init }
    else record o { mqtt_init = with_certificates root_ca cert key o.mqtt_init })

module _ (env : Env Call) where
  -- The client of the object's kind is initialised with the address.
  init_client : List ℕ → ℕ → AwsM ℕ
  init_client url port = do
    o ← gets (λ o. o)
    if o.is_shadow
        then (do
          modify (λ o. record o {
            shadow_init = record o.shadow_init { host = some url; port = port };
          })
          ask env (shadow_init_client (record o.shadow_init { host = some url; port = port })))
        else (do
          modify (λ o. record o { mqtt_init = record o.mqtt_init { host = some url; port = port } })
          ask env (mqtt_init_client (record o.mqtt_init { host = some url; port = port })))

  -- The semaphore is given before it is looked at.
  pub init : List ℕ → ℕ → AwsM ℕ
  unfolding init_client
  init url port = do
    s ← ask env create_mutex
    modify (λ o. record o { yield_semaphore = s; fault = o.fault || s == 0 })
    tell env (semaphore_give s)
    if s == 0 then pure failure else (do
      rc ← init_client url port
      if rc == 0 then (do tell env create_task; pure 0) else pure rc)

  -- A shadow is connected under the name of its thing, whose length is a `uint16_t`.
  connect_as : Bool → Option (List ℕ) → AwsM ℕ
  connect_as false thing_name = do o ← gets (λ o. o); ask env (mqtt_connect_client o.mqtt_connect)
  connect_as true none = pure null_value_error
  connect_as true (some name) = do
    o ← gets (λ o. o)
    let params : ShadowConnectParams = record o.shadow_connect {
      thing_name = some name;
      client_id = some name;
      client_id_len = length name % 2 ^ 16;
    }
    modify (λ o. record o { shadow_connect = params })
    ask env (shadow_connect_client params)

  unfoldable pub connect : Option (List ℕ) → AwsM ℕ
  unfolding connect_as
  connect thing_name w = connect_as w.dev.is_shadow thing_name w

  unfoldable pub auto_reconnect : Bool → AwsM ℕ
  auto_reconnect en = ask env (set_autoreconnect en)

  -- The semaphore is taken for so many milliseconds, the call is made in either case, and the
  -- semaphore is given.
  abbrev pub guarded : ℕ → Call → AwsM ℕ
  guarded ms c = do
    o ← gets (λ o. o)
    tell env (semaphore_take o.yield_semaphore ms)
    rc ← ask env c
    tell env (semaphore_give o.yield_semaphore)
    pure rc

  unfoldable pub subscribe : List ℕ → ℕ → AwsM ℕ
  subscribe topic qos = guarded 1000 (mqtt_subscribe topic qos)

  -- A message of QoS 1 whose acknowledgement does not come counts as sent.
  abbrev pub publish_for : ℕ → List ℕ → ℕ → List ℕ → AwsM ℕ
  publish_for ms topic qos payload = do
    rc ← guarded ms (mqtt_publish topic qos payload)
    pure (if qos == qos1 && rc == request_timeout_error then 0 else rc)

  unfoldable pub publish_params : List ℕ → ℕ → List ℕ → AwsM ℕ
  publish_params topic qos payload = publish_for 1000 topic qos payload

  unfoldable pub publish : List ℕ → List ℕ → ℕ → AwsM ℕ
  publish topic payload qos = publish_for 100 topic qos payload

  unfoldable pub update_shadow : List ℕ → AwsM ℕ
  update_shadow json = do
    o ← gets (λ o. o)
    guarded 100 (shadow_update o.shadow_connect.thing_name json)
