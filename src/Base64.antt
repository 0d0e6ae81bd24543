-- ===== src/Base64.antt =====
-- components/base64-comp/base64-comp.cpp: Base64 over mbedtls, which is a parameter. Sizes fit an
-- `int`.
pub mod Roundtrip
use esp32sx_c_plus_wrappers.Base.{ℕ, List, if◌then◌else◌}
use esp32sx_c_plus_wrappers.Base.Int.{ℤ, pos, is_neg}

-- What a call of mbedtls answers: its `int`, `olen`, and what is in the caller's buffer.
pub record Answer : Type 0 where
  pub ret : ℤ
  pub olen : ℕ
  pub dst : List ℕ

-- The calls, given the source and the size of the buffer, which is 0 for none.
pub record Mbedtls : Type 0 where
  pub base64_encode : List ℕ → ℕ → Answer
  pub base64_decode : List ℕ → ℕ → Answer

abbrev pub result : Answer → ℤ × List ℕ
result a = if is_neg a.ret then (a.ret, a.dst) else (pos a.olen, a.dst)

module _ (m : Mbedtls) where
  pub encode : List ℕ → ℕ → ℤ × List ℕ
  encode src dlen = result (m.base64_encode src dlen)

  pub decode : List ℕ → ℕ → ℤ × List ℕ
  decode src dlen = result (m.base64_decode src dlen)

  pub encoded_size : List ℕ → ℕ
  encoded_size src = (m.base64_encode src 0).olen

  pub decoded_size : List ℕ → ℕ
  decoded_size src = (m.base64_decode src 0).olen
