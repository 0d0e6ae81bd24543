-- ===== src/Aws/Client/Start.antt =====
-- How a client of components/aws-iot-comp/aws-iot-comp.cpp is set up.
use esp32sx_c_plus_wrappers.Base.{ℕ, List, ◌∷◌, ◌==◌, if◌then◌else◌, false, some, ◌≡◌, arith}
use esp32sx_c_plus_wrappers.Driver.{Env, World}
use esp32sx_c_plus_wrappers.Aws.Client.{
  InitParams, AwsIot, Call, create_mutex, semaphore_give, shadow_init_client, mqtt_init_client,
  create_task, certificates, init_client, init,
}

-- The parameters that an object of its kind is initialised with.
abbrev pub params_of : AwsIot → InitParams
params_of o = if o.is_shadow then o.shadow_init else o.mqtt_init

abbrev pub client_call : AwsIot → InitParams → Call
client_call o p = if o.is_shadow then shadow_init_client p else mqtt_init_client p

module _ (env : Env Call) where
  -- `init` after `certificates` initialises the client of the object's kind once, with the
  -- certificates and the address that were given, and makes the task exactly when it returns
  -- success. With no semaphore it returns FAILURE and makes neither, but has given the semaphore
  -- that it did not get.
  pub init-certificates :
      (root_ca cert key port : ℕ) (url : List ℕ) (w : World AwsIot Call)
      → w.dev.fault ≡ false
      → (let v = (certificates root_ca cert key w).1 in
          let (rc, w') = init env url port v in
          let p : InitParams = record (params_of w.dev) {
            host = some url;
            port = port;
            root_ca = root_ca;
            device_cert = cert;
            device_key = key;
          } in
          let s = env.code w.log create_mutex in
          let c = client_call w.dev p in
          let before = semaphore_give s ∷ create_mutex ∷ w.log in
          (rc ≡ (if s == 0 then 0xffffffff else env.code before c))
          × (w'.log ≡ (
              if s == 0
              then before
              else if env.code before c == 0
              then create_task ∷ c ∷ before
              else c ∷ before))
          × (w'.dev.fault ≡ (s == 0)))
  unfolding certificates init init_client
  init-certificates root_ca cert key port url w fine = ground arith
