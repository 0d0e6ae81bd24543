-- ===== src/Provision/Tests.antt =====
-- A concrete station for components/wifi-prov-comp.
use esp32sx_c_plus_wrappers.Base.{ℕ, List, [], ◌∷◌, none, some, length, take, ◌≡◌, refl, arith}
use esp32sx_c_plus_wrappers.Base.Int.{pos}
use esp32sx_c_plus_wrappers.Driver.{Env, World}
use esp32sx_c_plus_wrappers.Provision.{Provision, Call, get_mac, start}
use esp32sx_c_plus_wrappers.Provision.Name.{byte_at, start-names}

abbrev env_ok : Env Call
env_ok = record {
  code = λ _ _. 0;
  int = λ _ _. pos 0;
  bytes = λ _ c. elim c [ get_mac ↦ 1 ∷ 2 ∷ 3 ∷ 0xab ∷ 0x0f ∷ 0xff ∷ [] | _ ↦ [] ];
}

abbrev unnamed : World Provision Call
unnamed = record { dev = record { service_key = none; service_name = none }; log = [] }

start-names_example :
    (let w' = (start env_ok 0 (b'a' ∷ []) unnamed).1 in
      (name : List ℕ) × (w'.dev.service_name ≡ some name)
      × (length name ≡ 11)
      × (take 5 name ≡ b'P' ∷ b'R' ∷ b'O' ∷ b'V' ∷ b'_' ∷ [])
      × (byte_at 5 name ≡ 0xab)
      × (byte_at 7 name ≡ 0x0f)
      × (byte_at 9 name ≡ 0xff)
      × ((start env_ok 0 (b'a' ∷ []) w').1.dev.service_name ≡ some name))
start-names_example =
    start-names env_ok 0 (b'a' ∷ []) unnamed refl (omega arith) (omega arith) (omega arith)
