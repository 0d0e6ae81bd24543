-- ===== src/Base/Bytes.antt =====
-- Unsigned words as bytes, in both orders.
use Prim.Native.Nat.{ℕ, ◌+◌, ◌*◌, ◌/◌, ◌%◌, ◌^◌, ◌<◌}
use mathlib.Core.Path.{◌≡◌}
use mathlib.Core.List.{List, [], ◌∷◌}
use native.Mathlib.Omega.{arith}
use esp32sx_c_plus_wrappers.Base.Lists.{get_or}

-- A `uint32_t` as it lies in the memory of the processor, lowest byte first.
abbrev pub le32 : ℕ → List ℕ
le32 x = x % 256 ∷ x / 2 ^ 8 % 256 ∷ x / 2 ^ 16 % 256 ∷ x / 2 ^ 24 % 256 ∷ []

-- `*(uint32_t *)&buffer[i]`; bytes past the end read as 0.
abbrev pub read_le32 : List ℕ → ℕ → ℕ
read_le32 b i =
    get_or b i 0
    + 2 ^ 8 * get_or b (i + 1) 0
    + 2 ^ 16 * get_or b (i + 2) 0
    + 2 ^ 24 * get_or b (i + 3) 0

-- `*(uint16_t *)buffer`
abbrev pub read_le16 : List ℕ → ℕ
read_le16 b = get_or b 0 0 + 2 ^ 8 * get_or b 1 0

-- Bytes sent highest first.
abbrev pub be32 : ℕ → List ℕ
be32 x = x / 2 ^ 24 % 256 ∷ x / 2 ^ 16 % 256 ∷ x / 2 ^ 8 % 256 ∷ x % 256 ∷ []

-- `__builtin_bswap32`
abbrev pub bswap32 : ℕ → ℕ
bswap32 x =
    2 ^ 24 * (x % 256) + 2 ^ 16 * (x / 2 ^ 8 % 256) + 2 ^ 8 * (x / 2 ^ 16 % 256) + x / 2 ^ 24 % 256

pub bswap-le : (x : ℕ) → x < 2 ^ 32 → bswap32 (read_le32 (be32 x) 0) ≡ x
bswap-le x h = omega arith
