-- ===== src/Provision.antt =====
-- components/wifi-prov-comp/wifi-prov.cpp: the provisioning manager, with a name of the service made
-- from the address of the station.
pub mod Name
mod Tests
use esp32sx_c_plus_wrappers.Base.{
  ℕ, ◌+◌, ◌/◌, ◌%◌, List, [], ◌∷◌, ◌++◌, ◌==◌, if◌then◌else◌, ltb, Bool, true, false, not, Option,
  none, some, get_or, take,
}
use esp32sx_c_plus_wrappers.Driver.{
  Env, World, M, pure, ask, ask_bytes, tell, gets, modify, ◌>>=◌, ◌>>◌, ◌⨾◌,
}

-- The texts, none for NULL.
pub record Provision : Type 0 where
  pub service_key : Option (List ℕ)
  pub service_name : Option (List ℕ)

-- `is_provisioned` also answers with the flag, as the first of its bytes.
-- `loop_init_default` and `handler_register_default` are `EventLoop::initDefault` and
-- `registerEventDefault`.
pub data Call : Type 0 where
  mgr_init loop_init_default handler_register_default is_provisioned get_mac mgr_deinit : Call
  start_provisioning : ℕ → List ℕ → Option (List ℕ) → Option (List ℕ) → Call
  endpoint_create : List ℕ → Call
  endpoint_register : List ℕ → ℕ → Call

abbrev pub ProvisionM : Type 0 → Type 0
ProvisionM A = M Provision Call A

-- WIFI_PROV_START and the others.
pub data Event : Type 0 where
  prov_start cred_recv cred_fail cred_success prov_end other : Event

-- `%02X` of a byte.
abbrev pub hex_digit : ℕ → ℕ
hex_digit n = if ltb n 10 then b'0' + n else 55 + n

abbrev pub hex : ℕ → List ℕ
hex b = hex_digit (b / 16) ∷ hex_digit (b % 16) ∷ []

-- `snprintf(service_name, 12, "%s%02X%02X%02X", "PROV_", mac[3], mac[4], mac[5])`: eleven characters
-- are kept.
pub name_of : List ℕ → List ℕ
name_of mac = take 11 (
    (b'P' ∷ b'R' ∷ b'O' ∷ b'V' ∷ b'_' ∷ [])
    ++ (hex (get_or mac 3 0) ++ (hex (get_or mac 4 0) ++ hex (get_or mac 5 0))))

module _ (env : Env Call) where
  unfoldable pub init : ProvisionM ℕ
  init = ask env mgr_init ⨾ (do tell env loop_init_default; ask env handler_register_default)

  -- An error is returned as a `bool`.
  unfoldable pub provisioned : ProvisionM Bool
  provisioned w = (
    if env.code w.log is_provisioned == 0
        then not (get_or (env.bytes w.log is_provisioned) 0 0 == 0)
        else true,
    record w { log = is_provisioned ∷ w.log },
  )

  need_name : Option (List ℕ) → ProvisionM (Unit {0})
  unfolding name_of
  need_name (some name) = pure tt
  need_name none = do
    mac ← ask_bytes env get_mac
    modify (λ o. record o { service_name = some (name_of mac) })

  pub start : ℕ → List ℕ → ProvisionM ℕ
  unfolding need_name
  start security pop = do
    o ← gets (λ o. o)
    need_name o.service_name
    o ← gets (λ o. o)
    ask env (start_provisioning security pop o.service_name o.service_key)

  unfoldable pub custom_create : List ℕ → ProvisionM ℕ
  custom_create name = ask env (endpoint_create name)

  unfoldable pub custom_register : List ℕ → ℕ → ProvisionM ℕ
  custom_register name handler = ask env (endpoint_register name handler)

  unfoldable pub set_service_name : Option (List ℕ) → ProvisionM (Unit {0})
  set_service_name name = modify (λ o. record o { service_name = name })

  unfoldable pub deinit : ProvisionM (Unit {0})
  deinit = tell env mgr_deinit

  -- `event_handler`: the manager ends itself once provisioning has.
  unfoldable pub on_event : Event → ProvisionM (Unit {0})
  on_event prov_end = tell env mgr_deinit
  on_event _ = pure tt
