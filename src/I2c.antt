-- ===== src/I2c.antt =====
-- components/i2c-comp/i2c-comp.cpp: the I2C bus wrapper, over the esp-idf command links.
-- A buffer that the driver fills is named by its offset in the caller's buffer.
pub mod Frames
pub mod Outcome
pub mod Scan
mod Tests
use esp32sx_c_plus_wrappers.Base.{
  ℕ, zero, suc, ◌+◌, ◌-◌, ◌*◌, ◌%◌, ◌^◌, List, ◌==◌, if◌then◌else◌, ltb, Bool, true, false, Option,
  none, some, set, not,
}
use esp32sx_c_plus_wrappers.Base.Int.{ℤ, pos, negsuc, neg}
use esp32sx_c_plus_wrappers.Driver.{
  Env, World, M, pure, ask, ask_int, tell, gets, modify, ◌>>=◌, ◌>>◌, ◌⨾◌,
}

-- `i2c_mode_t`: I2C_MODE_SLAVE is 0.
pub data Mode : Type 0 where
  slave master : Mode

-- The class's fields.
pub record I2c : Type 0 where
  pub address : ℕ
  pub port : ℕ
  pub mode : Mode
  pub sda : ℕ
  pub scl : ℕ

-- The esp-idf functions that are called. The first argument of a call on a command link is the
-- link's handle. Writes always ask for the slave's acknowledgement (ACK_CHECK_EN).
pub data Call : Type 0 where
  link_create : Call
  link_delete : ℕ → Call
  start : ℕ → Call
  stop : ℕ → Call
  write_byte : ℕ → ℕ → Call
  write_bytes : ℕ → List ℕ → Call
  -- handle, offset in the buffer, count, acknowledge bit
  read_bytes : ℕ → ℕ → ℕ → ℕ → Call
  read_byte : ℕ → ℕ → ℕ → Call
  -- port, handle, milliseconds
  cmd_begin : ℕ → ℕ → ℕ → Call
  -- port, mode, pins, own address or clock speed
  param_config : ℕ → Mode → ℕ → ℕ → ℕ → Call
  driver_install : ℕ → Mode → ℕ → ℕ → Call
  driver_delete : ℕ → Call
  slave_read : ℕ → ℕ → Call
  slave_write : ℕ → List ℕ → Call
  reset_tx_fifo : ℕ → Call

abbrev pub I2cM : Type 0 → Type 0
I2cM A = M I2c Call A

-- ESP_FAIL is -1 and ESP_ERR_NO_MEM is 0x101.
abbrev pub err_no_mem : ℕ
err_no_mem = 0x101

abbrev pub esp_fail : ℤ
esp_fail = negsuc 0

abbrev pub ack_val : ℕ
ack_val = 0

abbrev pub nack_val : ℕ
nack_val = 1

-- `address << 1 | bit`, as the `uint8_t` that is sent.
pub address_byte : ℕ → ℕ → ℕ
address_byte address bit = (address * 2 + bit) % 256

-- `size_t` subtraction.
abbrev pub sub_size : ℕ → ℕ → ℕ
sub_size a b = (a + 2 ^ 32 - b) % 2 ^ 32

module _ (env : Env Call) where
  -- A slave's configuration holds its address, a master's its clock speed.
  pub config : I2cM Bool
  config = do
    o ← gets (λ o. o)
    err ← ask env (
        param_config o.port o.mode o.sda o.scl
          (elim o.mode [ slave ↦ o.address | master ↦ 100_000 ]))
    pure (err == 0)

  unfoldable pub begin : ℕ → ℕ → ℕ → I2cM Bool
  unfolding config
  begin sda scl addr = do
    _ ← modify (λ o. record o { address = addr; sda = sda; scl = scl })
    configured ← config
    o ← gets (λ o. o)
    if configured
        then (do err ← ask env (driver_install o.port o.mode 1024 1024); pure (err == 0))
        else pure false

  unfoldable pub destroy : I2cM (Unit {0})
  destroy = do o ← gets (λ o. o); tell env (driver_delete o.port)

  unfoldable pub get : I2cM ℤ
  get = do o ← gets (λ o. o); ask_int env (slave_read o.port 128)

  unfoldable pub put : List ℕ → I2cM ℤ
  put bytes = do o ← gets (λ o. o); ask_int env (slave_write o.port bytes)

  -- `set` of the source.
  unfoldable pub set_bytes : List ℕ → I2cM ℤ
  set_bytes bytes = do
    o ← gets (λ o. o)
    err ← ask env (reset_tx_fifo o.port)
    if err == 0 then ask_int env (slave_write o.port bytes) else pure esp_fail

  -- The register is written only if it is not negative.
  abbrev pub write_reg : ℕ → ℤ → I2cM ℕ
  write_reg cmd (pos reg) = ask env (write_byte cmd reg)
  write_reg cmd (negsuc _) = pure 0

  pub write : List ℕ → ℤ → I2cM ℕ
  unfolding address_byte
  write bytes reg = do
    o ← gets (λ o. o)
    cmd ← ask env link_create
    if cmd == 0
        then pure err_no_mem
        else ask env (start cmd)
          ⨾ ask env (write_byte cmd (address_byte o.address 0))
          ⨾ write_reg cmd reg
          ⨾ ask env (write_bytes cmd bytes)
          ⨾ ask env (stop cmd)
          ⨾ ask env (cmd_begin o.port cmd 1000)
          ⨾ (tell env (link_delete cmd) >> pure 0)

  -- The write phase that selects the register, before the read.
  abbrev pub select_reg : ℕ → ℕ → ℤ → I2cM ℕ
  select_reg cmd address (pos reg) =
      ask env (start cmd)
      ⨾ ask env (write_byte cmd (address_byte address 0))
      ⨾ ask env (write_byte cmd reg)
  select_reg cmd address (negsuc _) = pure 0

  pub read : ℕ → ℤ → I2cM ℕ
  unfolding address_byte
  read len reg = do
    o ← gets (λ o. o)
    cmd ← ask env link_create
    if cmd == 0
        then pure err_no_mem
        else select_reg cmd o.address reg
          ⨾ ask env (start cmd)
          ⨾ ask env (write_byte cmd (address_byte o.address 1))
          ⨾ (if ltb 1 len then ask env (read_bytes cmd 0 (len - 1) ack_val) else pure 0)
          ⨾ ask env (read_byte cmd (sub_size len 1) nack_val)
          ⨾ ask env (stop cmd)
          ⨾ ask env (cmd_begin o.port cmd 100)
          ⨾ (tell env (link_delete cmd) >> pure 0)
