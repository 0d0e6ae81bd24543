-- ===== src/I2c/Frames.antt =====
-- `i2c::write` and `i2c::read` against the frames of the I2C protocol.
use esp32sx_c_plus_wrappers.Base.{
  ℕ, ◌-◌, List, [], ◌∷◌, ◌++◌, ◌==◌, if◌then◌else◌, ltb, ◌≡◌, arith, Bool-cases, inl, inr,
}
use esp32sx_c_plus_wrappers.Base.Int.{ℤ, pos, negsuc}
use esp32sx_c_plus_wrappers.Driver.{Env, World}
use esp32sx_c_plus_wrappers.Driver.Script.{run_script}
use esp32sx_c_plus_wrappers.I2c.{
  I2c, Call, link_create, link_delete, start, stop, write_byte, write_bytes, read_bytes, read_byte,
  cmd_begin, address_byte, sub_size, write, read, err_no_mem, ack_val, nack_val,
}

-- START, the address with the write bit, the register if there is one, the data, STOP.
abbrev pub write_frame : I2c → ℕ → List ℕ → ℤ → List Call
write_frame o cmd bytes (pos reg) =
    start cmd
    ∷ write_byte cmd (address_byte o.address 0)
    ∷ write_byte cmd reg
    ∷ write_bytes cmd bytes
    ∷ stop cmd
    ∷ cmd_begin o.port cmd 1000
    ∷ []
write_frame o cmd bytes (negsuc _) =
    start cmd
    ∷ write_byte cmd (address_byte o.address 0)
    ∷ write_bytes cmd bytes
    ∷ stop cmd
    ∷ cmd_begin o.port cmd 1000
    ∷ []

-- A transaction runs the frame on a new link, and deletes the link after a success only.
unfoldable pub transaction : Env Call → (ℕ → List Call) → World I2c Call → ℕ × World I2c Call
transaction env frame w =
    let cmd = env.code w.log link_create in
    let w' : World I2c Call = record w { log = link_create ∷ w.log } in
    let (e, v) = run_script env (frame cmd) w' in
    if cmd == 0
    then (err_no_mem, w')
    else if e == 0
    then (0, record v { log = link_delete cmd ∷ v.log })
    else (e, v)

-- The register is selected by a write phase of its own, before a repeated START.
abbrev pub select_frame : I2c → ℕ → ℤ → List Call
select_frame o cmd (pos reg) =
    start cmd ∷ write_byte cmd (address_byte o.address 0) ∷ write_byte cmd reg ∷ []
select_frame o cmd (negsuc _) = []

-- All bytes but the last are acknowledged.
abbrev pub data_frame : ℕ → ℕ → List Call
data_frame cmd len =
    if ltb 1 len
    then read_bytes cmd 0 (len - 1) ack_val ∷ read_byte cmd (sub_size len 1) nack_val ∷ []
    else read_byte cmd (sub_size len 1) nack_val ∷ []

abbrev pub read_frame : I2c → ℕ → ℕ → ℤ → List Call
read_frame o cmd len reg =
    select_frame o cmd reg
    ++ (start cmd
        ∷ write_byte cmd (address_byte o.address 1)
        ∷ (data_frame cmd len ++ (stop cmd ∷ cmd_begin o.port cmd 100 ∷ [])))

-- `i2c::write` is the transaction of the write frame: it makes the frame's calls in order on a new
-- link, ends with the error of the first that fails, and deletes the link after a success only.
-- With no link it returns ESP_ERR_NO_MEM and makes no other call.
pub write-eq-transaction :
    (env : Env Call) (bytes : List ℕ) (reg : ℤ) (w : World I2c Call)
    → write env bytes reg w ≡ transaction env (λ cmd. write_frame w.dev cmd bytes reg) w
unfolding write transaction run_script
write-eq-transaction env bytes (pos reg) w = ground arith
write-eq-transaction env bytes (negsuc n) w = ground arith

-- `i2c::read` is the transaction of the read frame, in the same sense.
pub read-eq-transaction :
    (env : Env Call) (len : ℕ) (reg : ℤ) (w : World I2c Call)
    → read env len reg w ≡ transaction env (λ cmd. read_frame w.dev cmd len reg) w
unfolding read transaction run_script
read-eq-transaction env len (pos reg) w = elim (Bool-cases (ltb 1 len)) [
  | inl e ↦ rw e (ground arith)
  | inr e ↦ rw e (ground arith)
]
read-eq-transaction env len (negsuc n) w = elim (Bool-cases (ltb 1 len)) [
  | inl e ↦ rw e (ground arith)
  | inr e ↦ rw e (ground arith)
]
