-- ===== src/I2c/Scan.antt =====
-- `i2c::scan` of components/i2c-comp/i2c-comp.cpp: the loop over the 7-bit addresses, and what it finds on a bus.
pub mod Found
use esp32sx_c_plus_wrappers.Base.{
  ℕ, zero, suc, ◌+◌, ◌%◌, List, ◌==◌, if◌then◌else◌, ltb, Option, none, some, set,
}
use esp32sx_c_plus_wrappers.Base.Int.{ℤ, pos, neg}
use esp32sx_c_plus_wrappers.Driver.{Env, pure, ask, tell, gets, ◌>>=◌, ◌>>◌, ◌⨾◌}
use esp32sx_c_plus_wrappers.I2c.{
  I2cM, Call, slave, master, link_create, link_delete, start, stop, write_byte, cmd_begin,
  address_byte, err_no_mem,
}

-- `if (buf != NULL && device_count < num) *(buf + device_count) = dev_address;`
abbrev pub store : Option (List ℕ) → ℕ → ℕ → ℕ → Option (List ℕ)
store none num count address = none
store (some buf) num count address =
    if ltb count num then some (set buf count address) else some buf

-- What one round finds, or the error that ends the scan.
pub data Probe : Type 0 where
  failed : ℤ → Probe
  absent present : Probe

module _ (env : Env Call) where
  pub probe : ℕ → I2cM Probe
  unfolding address_byte
  probe address = do
    o ← gets (λ o. o)
    cmd ← ask env link_create
    if cmd == 0 then pure (failed (neg err_no_mem)) else (do
      err ←
          ask env (start cmd)
          ⨾ ask env (write_byte cmd (address_byte address 0))
          ⨾ ask env (stop cmd)
      if err == 0
          then (do
            answer ← ask env (cmd_begin o.port cmd 100)
            tell env (link_delete cmd)
            pure (if answer == 0 then present else absent))
          else pure (failed (neg err)))

  -- The rounds left, the address, and the loop's `device_count` (a `uint8_t`) and buffer.
  pub scan_from : ℕ → ℕ → ℕ → ℕ → Option (List ℕ) → I2cM (ℤ × Option (List ℕ))
  scan_from zero address num count buf w = ((pos count, buf), w)
  scan_from (suc n) address num count buf w =
      let (p, w') = probe address w in
      elim p [
        | failed err ↦ ((err, buf), w')
        | absent ↦ scan_from n (address + 1) num count buf w'
        | present ↦
            scan_from n (address + 1) num ((count + 1) % 256) (store buf num count address) w'
      ]

  -- `for (dev_address = 1; dev_address < 127; dev_address++)`
  pub scan : ℕ → Option (List ℕ) → I2cM (ℤ × Option (List ℕ))
  unfolding scan_from
  scan num buf w = elim w.dev.mode [
    | slave ↦ ((pos 0, buf), w)
    | master ↦ scan_from 126 1 num 0 buf w
  ]
