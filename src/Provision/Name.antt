-- ===== src/Provision/Name.antt =====
-- The name of the service in components/wifi-prov-comp/wifi-prov.cpp.
use esp32sx_c_plus_wrappers.Base.{
  ℕ, ◌+◌, ◌-◌, ◌*◌, ◌<◌, ◌/◌, ◌%◌, List, [], ◌∷◌, if◌then◌else◌, ltb, Option, none, some, length,
  take, get_or, ◌≡◌, refl, ap, ◌∙◌, arith,
}
use esp32sx_c_plus_wrappers.Driver.{Env, World}
use esp32sx_c_plus_wrappers.Provision.{
  Provision, Call, get_mac, hex_digit, name_of, need_name, start,
}

abbrev pub from_hex : ℕ → ℕ
from_hex c = if ltb c 65 then c - 48 else c - 55

-- The byte whose two digits stand at a place.
abbrev pub byte_at : ℕ → List ℕ → ℕ
byte_at i name = 16 * from_hex (get_or name i 0) + from_hex (get_or name (i + 1) 0)

from_hex-hex_digit : (n : ℕ) → n < 16 → from_hex (hex_digit n) ≡ n
from_hex-hex_digit n h = ground arith

byte_of_digits :
    (b : ℕ) → b < 256 → 16 * from_hex (hex_digit (b / 16)) + from_hex (hex_digit (b % 16)) ≡ b
byte_of_digits b h =
    omega
      (arith, from_hex-hex_digit (b / 16) (omega arith), from_hex-hex_digit (b % 16) (omega arith))

name_of-bytes :
    (mac : List ℕ)
    → get_or mac 3 0 < 256
    → get_or mac 4 0 < 256
    → get_or mac 5 0 < 256
    → (length (name_of mac) ≡ 11)
      × (take 5 (name_of mac) ≡ b'P' ∷ b'R' ∷ b'O' ∷ b'V' ∷ b'_' ∷ [])
      × (byte_at 5 (name_of mac) ≡ get_or mac 3 0)
      × (byte_at 7 (name_of mac) ≡ get_or mac 4 0)
      × (byte_at 9 (name_of mac) ≡ get_or mac 5 0)
unfolding name_of
name_of-bytes mac h k l = (
  refl,
  refl,
  byte_of_digits (get_or mac 3 0) h,
  byte_of_digits (get_or mac 4 0) k,
  byte_of_digits (get_or mac 5 0) l,
)

module _ (env : Env Call) where
  need_name-none :
      (o : Option (List ℕ)) (w : World Provision Call)
      → o ≡ none
      → (need_name env o w).1.dev.service_name ≡ some (name_of (env.bytes w.log get_mac))
  unfolding need_name
  need_name-none none w e = refl
  need_name-none (some name) w e = cc

  need_name-some :
      (o : Option (List ℕ)) (name : List ℕ) (w : World Provision Call)
      → o ≡ some name
      → (need_name env o w).1 ≡ w
  unfolding need_name
  need_name-some none name w e = cc
  need_name-some (some _) name w e = refl

  -- An object without a name takes one of eleven characters, which fit the thirteen bytes of its
  -- buffer with their end: PROV_ and digits from which the three last bytes of the station's address
  -- can be read back. A later start keeps the name.
  pub start-names :
      (security : ℕ) (pop : List ℕ) (w : World Provision Call)
      → w.dev.service_name ≡ none
      → get_or (env.bytes w.log get_mac) 3 0 < 256
      → get_or (env.bytes w.log get_mac) 4 0 < 256
      → get_or (env.bytes w.log get_mac) 5 0 < 256
      → (let mac = env.bytes w.log get_mac in
          let w' = (start env security pop w).1 in
          (name : List ℕ) × (w'.dev.service_name ≡ some name)
          × (length name ≡ 11)
          × (take 5 name ≡ b'P' ∷ b'R' ∷ b'O' ∷ b'V' ∷ b'_' ∷ [])
          × (byte_at 5 name ≡ get_or mac 3 0)
          × (byte_at 7 name ≡ get_or mac 4 0)
          × (byte_at 9 name ≡ get_or mac 5 0)
          × ((start env security pop w').1.dev.service_name ≡ some name))
  unfolding start
  start-names security pop w none_yet h k l =
      let (a, b, c, d, e) = name_of-bytes (env.bytes w.log get_mac) h k l in
      let w' = (start env security pop w).1 in
      let first : w'.dev.service_name ≡ some (name_of (env.bytes w.log get_mac)) =
        need_name-none w.dev.service_name w none_yet in
      let again = need_name-some w'.dev.service_name (name_of (env.bytes w.log get_mac)) w' first in
      (
        name_of (env.bytes w.log get_mac),
        first,
        a,
        b,
        c,
        d,
        e,
        ap (λ (v : World Provision Call). v.dev.service_name) again ∙ first,
      )
