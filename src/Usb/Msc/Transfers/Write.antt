-- ===== src/Usb/Msc/Transfers/Write.antt =====
-- `_write10` of components/usb-host-comp/msc/usb_msc.cpp: what a device is sent.
use esp32sx_c_plus_wrappers.Base.{
  ℕ, ◌*◌, ◌^◌, ◌<◌, List, [], ◌∷◌, ◌==◌, if◌then◌else◌, false, ◌≡◌, ◌≢◌, refl, arith, some, get_or,
  take,
}
use esp32sx_c_plus_wrappers.Driver.{Env, World}
use esp32sx_c_plus_wrappers.Usb.Wire.{init_cbw, cbw_bytes, rw10_cmd}
use esp32sx_c_plus_wrappers.Usb.Wire.Device.{decode, decode-cbw}
use esp32sx_c_plus_wrappers.Usb.Msc.{Msc, Call, submit, opcode, write_10, padding}
use esp32sx_c_plus_wrappers.Usb.Msc.Transfers.{write10, mul32}

-- The transfers submitted to the endpoint `ep`, the last first: their length and bytes.
abbrev pub sent : ℕ → List Call → List (ℕ × List ℕ)
sent ep [] = []
sent ep (submit _ e size bytes ∷ log) = if e == ep then (size, bytes) ∷ sent ep log else sent ep log
sent ep (_ ∷ log) = sent ep log

module _ (env : Env Call) (lun offset num_sectors : ℕ) (bytes : List ℕ) (w : World Msc Call) where
  abbrev size_of : ℕ → ℕ
  size_of unit = mul32 num_sectors (get_or w.dev.block_size unit 0)

  sent-write10 :
      w.dev.ep_in ≢ w.dev.ep_out
      → (write10 env lun offset num_sectors bytes w).0 ≡ 0
      → let len = size_of w.dev.lun in
        sent w.dev.ep_out (write10 env lun offset num_sectors bytes w).1.log
        ≡ (len, take len bytes)
          ∷ (
            31,
            cbw_bytes (
                init_cbw padding false lun 0x1234
                  (rw10_cmd (opcode write_10) offset num_sectors)
                  len),
          )
          ∷ sent w.dev.ep_out w.log
  unfolding write10
  sent-write10 ne ok = ground arith

  -- A write that returns ESP_OK has sent two transfers to the device: a command, in which the
  -- device reads the unit, block address, sector count and length of the call, and the first
  -- `num_sectors` times block size bytes of the caller's buffer. It is so when the unit that was
  -- handled last has the block size of the unit written to, and the numbers fit their fields.
  pub write10_request :
      w.dev.ep_in ≢ w.dev.ep_out
      → offset < 2 ^ 32
      → num_sectors < 2 ^ 16
      → num_sectors * get_or w.dev.block_size lun 0 < 2 ^ 32
      → get_or w.dev.block_size w.dev.lun 0 ≡ get_or w.dev.block_size lun 0
      → (write10 env lun offset num_sectors bytes w).0 ≡ 0
      → let len = num_sectors * get_or w.dev.block_size lun 0 in
        (cbw : List ℕ) × (sent w.dev.ep_out (write10 env lun offset num_sectors bytes w).1.log
          ≡ (len, take len bytes) ∷ (31, cbw) ∷ sent w.dev.ep_out w.log)
        × (decode cbw
            ≡ some (record {
              tag = 0x1234;
              lun = lun;
              to_host = false;
              opcode = 0x2a;
              lba = offset;
              blocks = num_sectors;
              bytes = len;
            }))
  write10_request ne o n l same ok =
      let len = num_sectors * get_or w.dev.block_size lun 0 in
      let exact : size_of w.dev.lun ≡ len = rw same (omega arith) in
      let cmd = rw10_cmd (opcode write_10) offset num_sectors in
      (
        cbw_bytes (init_cbw padding false lun 0x1234 cmd len),
        rw (sent-write10 ne ok, exact),
        decode-cbw padding false lun (opcode write_10) offset num_sectors len refl o n l,
      )
