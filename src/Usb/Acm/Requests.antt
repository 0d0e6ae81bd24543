-- ===== src/Usb/Acm/Requests.antt =====
-- The requests of components/usb-host-comp/acm/usb_acm.cpp as a device of the CDC class reads them,
-- and the buffers that they are written to.
use esp32sx_c_plus_wrappers.Base.{
  ℕ, ◌+◌, ◌*◌, ◌^◌, ◌<◌, ◌≤◌, List, ◌∷◌, ◌==◌, if◌then◌else◌, ◌&&◌, Bool, true, false, Option, none,
  some, length, get_or, ◌≡◌, ◌≢◌, ◌↔◌, refl, ap, arith, ◌||◌, take, ◌%◌,
}
use esp32sx_c_plus_wrappers.Base.Bytes.{read_le32}
use esp32sx_c_plus_wrappers.Driver.{Env, World}
use esp32sx_c_plus_wrappers.Usb.Acm.{
  Acm, Call, transfer_alloc, submit_control, init, set_control_line, send_line_coding,
  ask_line_coding, out_data, to_bit, is_some,
}

-- What a device is asked on its control endpoint (USB CDC, PSTN subclass).
pub data Asked : Type 0 where
  coding : ℕ → ℕ → ℕ → ℕ → Asked
  lines : Bool → Bool → Asked
  report : ℕ → Asked

-- A device reads a setup packet of eight bytes, and the data behind it.
pub decode : List ℕ → Option Asked
decode b =
    if get_or b 0 0 == 0x21 && (get_or b 1 0 == 0x20 && (get_or b 6 0 == 7 && length b == 15))
    then some (coding (read_le32 b 8) (get_or b 12 0) (get_or b 13 0) (get_or b 14 0))
    else if get_or b 0 0 == 0x21 && (get_or b 1 0 == 0x22 && length b == 8)
    then some
        (lines (get_or b 2 0 == 1 || get_or b 2 0 == 3) (get_or b 2 0 == 2 || get_or b 2 0 == 3))
    else if get_or b 0 0 == 0xa1 && (get_or b 1 0 == 0x21 && length b == 8)
    then some (report (get_or b 6 0))
    else none

abbrev pub last_asked : List Call → Option Asked
unfolding decode
last_asked (submit_control t num b ∷ log) = decode (take num b)
last_asked _ = none

lines_of_bits :
    (dtr rts : Bool)
    → (let value = (to_bit dtr + 2 * to_bit rts) % 256 in
        lines (value == 1 || value == 3) (value == 2 || value == 3) ≡ lines dtr rts)
lines_of_bits true true = refl
lines_of_bits true false = refl
lines_of_bits false true = refl
lines_of_bits false false = refl

module _ (env : Env Call) (round_up : ℕ → ℕ → ℕ) where
  -- A device reads from `setLineCoding` the bit rate, format, parity and data bits of the call, if
  -- the rate fits 32 bits; from `setControlLine` the two line states; and from `getLineCoding` that
  -- the seven bytes of the coding are asked for.
  pub decode-requests :
      (bitrate cf parity bits : ℕ) (dtr rts : Bool) (w : World Acm Call)
      → bitrate < 2 ^ 32
      → (last_asked (send_line_coding env round_up bitrate cf parity bits w).1.log
          ≡ some (coding bitrate cf parity bits))
        × (last_asked (set_control_line env round_up dtr rts w).1.log ≡ some (lines dtr rts))
        × (last_asked (ask_line_coding env round_up w).1.log ≡ some (report 7))
  unfolding decode send_line_coding set_control_line ask_line_coding
  decode-requests bitrate cf parity bits dtr rts w h =
      (ground arith, ap some (lines_of_bits dtr rts), refl)

  -- `setLineCoding` of an object that has been initialised without a fault, its control transfer
  -- allocated, writes inside the buffer of that transfer exactly when the buffer has 16 bytes at
  -- least. `init` gives it the size of the control endpoint's packets, which is 8 for some devices.
  pub send_line_coding-InBounds :
      (max_packet bitrate cf parity bits : ℕ) (w : World Acm Call)
      → w.dev.fault ≡ false
      → env.code w.log (transfer_alloc max_packet) ≢ 0
      → ((send_line_coding env round_up bitrate cf parity bits
            (init env round_up max_packet w).1).1.dev.fault
          ≡ false)
        ↔ (16 ≤ max_packet)
  unfolding send_line_coding init
  send_line_coding-InBounds max_packet bitrate cf parity bits w fine got =
      ((λ h. ground arith), (λ h. ground arith))

  -- `OUTDATA` of a connected object that gets its transfer writes inside it exactly when the data
  -- has 64 bytes at most.
  pub out_data-InBounds :
      (bytes : List ℕ) (w : World Acm Call)
      → w.dev.fault ≡ false
      → w.dev.connected ≡ true
      → is_some w.dev.ep_out ≡ true
      → env.code w.log (transfer_alloc 64) ≢ 0
      → ((out_data env round_up bytes w).1.dev.fault ≡ false) ↔ (length bytes ≤ 64)
  unfolding out_data
  out_data-InBounds bytes w fine on ep got = ((λ h. ground arith), (λ h. ground arith))
