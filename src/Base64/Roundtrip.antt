-- ===== src/Base64/Roundtrip.antt =====
-- Encoding and decoding with the sizes that components/base64-comp/base64-comp.cpp gives.
use esp32sx_c_plus_wrappers.Base.{ℕ, suc, ◌≤◌, ◌<◌, List, [], length, ◌≡◌, ap, arith, Option, some}
use esp32sx_c_plus_wrappers.Base.Int.{pos, negsuc}
use esp32sx_c_plus_wrappers.Base64.{Mbedtls, result, encode, decode, encoded_size, decoded_size}

-- What mbedtls documents, for a text of the bytes `src`: -0x2A and the size that is needed for a
-- buffer that is too small, which for an encoding counts the end mark; else the bytes and their
-- number. The text of some bytes is read as these bytes.
pub record Documented (m : Mbedtls) (text : List ℕ → List ℕ) (value : List ℕ → Option (List ℕ))
    : Type 0 where
  pub reads : (src : List ℕ) → value (text src) ≡ some src
  pub encodes :
      (src : List ℕ) (dlen : ℕ)
      → length (text src) < dlen
      → m.base64_encode src dlen ≡ record { ret = pos 0; olen = length (text src); dst = text src }
  pub encodes_not :
      (src : List ℕ) (dlen : ℕ)
      → 0 < length src
      → dlen ≤ length (text src)
      → m.base64_encode src dlen
        ≡ record { ret = negsuc 41; olen = suc (length (text src)); dst = [] }
  pub decodes :
      (src bytes : List ℕ) (dlen : ℕ)
      → value src ≡ some bytes
      → length bytes ≤ dlen
      → m.base64_decode src dlen ≡ record { ret = pos 0; olen = length bytes; dst = bytes }
  pub decodes_not :
      (src bytes : List ℕ) (dlen : ℕ)
      → value src ≡ some bytes
      → dlen < length bytes
      → m.base64_decode src dlen ≡ record { ret = negsuc 41; olen = length bytes; dst = [] }

module _ {m : Mbedtls} {text : List ℕ → List ℕ} {value : List ℕ → Option (List ℕ)}
    (doc : Documented m text value) where
  -- `encodedSize` of some bytes is room for the text and its end mark, and `decodedSize` of the text
  -- is the number of the bytes.
  pub sizes :
      (src : List ℕ)
      → 0 < length src
      → (encoded_size m src ≡ suc (length (text src))) × (decoded_size m (text src) ≡ length src)
  unfolding encoded_size decoded_size
  sizes src h = (
    ap (λ a. a.olen) (doc.encodes_not src 0 h (omega arith)),
    ap (λ a. a.olen) (doc.decodes_not (text src) src 0 (doc.reads src) h),
  )

  -- Bytes that are encoded into a buffer of `encodedSize` give their text, and that is decoded into a
  -- buffer of `decodedSize` as the bytes; each call returns the length of what it wrote.
  pub decode-encode :
      (src : List ℕ)
      → 0 < length src
      → (encode m src (encoded_size m src) ≡ (pos (length (text src)), text src))
        × (decode m (text src) (decoded_size m (text src)) ≡ (pos (length src), src))
  unfolding encode decode
  decode-encode src h = (
    ap result (doc.encodes src (encoded_size m src) (ground (arith, (sizes src h).0))),
    ap result (
        doc.decodes (text src) src (decoded_size m (text src)) (doc.reads src)
          (ground (arith, (sizes src h).1))),
  )
