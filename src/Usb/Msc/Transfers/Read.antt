-- ===== src/Usb/Msc/Transfers/Read.antt =====
-- The data of a read of components/usb-host-comp/msc/usb_msc.cpp: where `onData` puts it.
use esp32sx_c_plus_wrappers.Base.{ℕ, List, [], ◌∷◌, ◌≡◌, ◌≢◌, refl, ◌∙◌, arith, get_or, take, map}
use esp32sx_c_plus_wrappers.Driver.{Env, World}
use esp32sx_c_plus_wrappers.Driver.Script.{onto}
use esp32sx_c_plus_wrappers.Usb.Msc.{Msc, Call, Transfer, read_10, copy_out, transfer_done}
use esp32sx_c_plus_wrappers.Usb.Msc.Enumeration.{complete}

-- What has been copied to a caller, and to which address, the last first.
abbrev pub copies : List Call → List (ℕ × List ℕ)
copies [] = []
copies (copy_out to bytes ∷ log) = (to, bytes) ∷ copies log
copies (_ ∷ log) = copies log

abbrev pub data_transfer : ℕ → List ℕ → Transfer
data_transfer n bytes = record { handle = 1; actual_num_bytes = n; data_buffer = bytes }

module _ (env : Env Call) (n : ℕ) where
  -- No other packet has the length of the data.
  abbrev pub IsPlain : Type 0
  IsPlain = (n ≢ 9) × (n ≢ 31) × (n ≢ 13)

  record Copied (w w' : World Msc Call) (bytes : List ℕ) : Type 0 where
    reading : w'.dev.event ≡ read_10
    buffer : w'.dev.temp_buffer ≡ w.dev.temp_buffer
    unit : w'.dev.lun ≡ w.dev.lun
    sizes : w'.dev.block_size ≡ w.dev.block_size
    copied :
        copies w'.log
        ≡ (w.dev.temp_buffer, take (get_or w.dev.block_size w.dev.lun 0) bytes) ∷ copies w.log

  data_Copied :
      (bytes : List ℕ) (w : World Msc Call)
      → IsPlain
      → w.dev.event ≡ read_10
      → Copied w (transfer_done env (data_transfer n bytes) w).1 bytes
  unfolding transfer_done
  data_Copied bytes w p e = ground arith

  -- While a read is under way, each transfer of data is copied to the start of the caller's buffer,
  -- at most a block of the unit that was handled last: a second block overwrites the first.
  pub copies-complete :
      (blocks : List (List ℕ)) (w : World Msc Call)
      → IsPlain
      → w.dev.event ≡ read_10
      → copies (complete env (map (data_transfer n) blocks) w).log
        ≡ onto
            (map (λ b. (w.dev.temp_buffer, take (get_or w.dev.block_size w.dev.lun 0) b)) blocks)
            (copies w.log)
  copies-complete [] w p e = refl
  copies-complete (b ∷ blocks) w p e =
      let w' = (transfer_done env (data_transfer n b) w).1 in
      let c = data_Copied b w p e in
      copies-complete blocks w' p c.reading ∙ rw (c.copied, c.buffer, c.sizes, c.unit)
