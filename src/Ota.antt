-- ===== src/Ota.antt =====
-- components/ota-comp: an update of the firmware, written to the next partition piece by piece after
-- its header has been checked. Logging is left out.
pub mod Session
mod Tests
use esp32sx_c_plus_wrappers.Base.{
  ℕ, zero, suc, ◌+◌, List, [], ◌∷◌, length, drop, take, ◌==◌, if◌then◌else◌, ltb, Bool, true, false,
  not, ◌&&◌,
}
use esp32sx_c_plus_wrappers.Base.Int.{ℤ}
use esp32sx_c_plus_wrappers.Driver.{Env, World, M, pure, ask, tell, gets, modify, ◌>>=◌, ◌>>◌, ◌⨾◌}

-- A partition is a pointer: 0 is NULL.
pub record Ota : Type 0 where
  pub update_partition : ℕ
  pub configured : ℕ
  pub running : ℕ
  pub update_handle : ℤ
  pub image_header_was_checked : Bool

-- The calls of esp_ota_ops. `ota_begin` answers with an error code, and with a handle as its `int`.
-- The bytes of `description` are those of the local that it fills.
pub data Call : Type 0 where
  boot_partition running_partition last_invalid_partition : Call
  next_update_partition : ℕ → Call
  description : ℕ → Call
  ota_begin : ℕ → Call
  ota_write : ℤ → List ℕ → Call
  ota_abort ota_end : ℤ → Call
  set_boot_partition : ℕ → Call

-- The layout of an application image, which esp-idf fixes: the sizes of its two headers and of its
-- description, and where a description holds the version.
pub record Layout : Type 0 where
  pub header_size : ℕ
  pub segment_size : ℕ
  pub desc_size : ℕ
  pub version : List ℕ → List ℕ

abbrev pub OtaM : Type 0 → Type 0
OtaM A = M Ota Call A

abbrev pub esp_fail : ℕ
esp_fail = 4294967295

abbrev pub err_invalid_size : ℕ
err_invalid_size = 260

-- `memcmp(xs, ys, size) == 0`
abbrev pub same_bytes : List ℕ → List ℕ → Bool
same_bytes [] [] = true
same_bytes (x ∷ xs) (y ∷ ys) = x == y && same_bytes xs ys
same_bytes _ _ = false

module _ (env : Env Call) where
  unfoldable pub init : ℕ → OtaM ℕ
  init start_from = do
    boot ← ask env boot_partition
    modify (λ o. record o { configured = boot })
    current ← ask env running_partition
    modify (λ o. record o { running = current })
    next ← ask env (next_update_partition start_from)
    modify (λ o. record o { update_partition = next })
    pure (if next == 0 then esp_fail else 0)

  -- A failed `esp_ota_begin` leaves the handle as it was, and that handle is aborted.
  pub begin : OtaM ℕ
  begin w =
      if w.dev.update_partition == 0
      then (esp_fail, w)
      else (let c = ota_begin w.dev.update_partition in
          if env.code w.log c == 0
          then (
            0,
            record { dev = record w.dev { update_handle = env.int w.log c }; log = c ∷ w.log },
          )
          else (env.code w.log c, record w { log = ota_abort w.dev.update_handle ∷ c ∷ w.log }))

  module _ (layout : Layout) where
    abbrev pub desc_offset : ℕ
    desc_offset = layout.header_size + layout.segment_size

    -- The version that an image names.
    abbrev pub new_version : List ℕ → List ℕ
    new_version bytes = layout.version (take layout.desc_size (drop desc_offset bytes))

    -- `SKIP_VERSION_CHECK` is defined, so the comparison with the running version only logs.
    pub compare : List ℕ → OtaM ℕ
    compare bytes w =
        if w.dev.image_header_was_checked
        then (0, w)
        else (if ltb (desc_offset + layout.desc_size) (length bytes)
            then (do
              o ← gets (λ o. o)
              tell env (description o.running)
              last_invalid ← ask env last_invalid_partition
              invalid_info ← λ v. (env.bytes v.log (description last_invalid), v)
              tell env (description last_invalid)
              if not (last_invalid == 0)
                    && same_bytes (layout.version invalid_info) (new_version bytes)
                  then pure esp_fail
                  else (do modify (λ o. record o { image_header_was_checked = true }); pure 0))
                w
            else (err_invalid_size, w))

    pub write : List ℕ → OtaM ℕ
    unfolding compare
    write bytes = compare bytes ⨾ (do
      o ← gets (λ o. o)
      err ← ask env (ota_write o.update_handle bytes)
      if err == 0 then pure 0 else (do tell env (ota_abort o.update_handle); pure err))

  pub finish : OtaM ℕ
  finish = do
    o ← gets (λ o. o)
    ask env (ota_end o.update_handle) ⨾ ask env (set_boot_partition o.update_partition)
