-- ===== src/I2c/Outcome.antt =====
-- What a finished `i2c::write` or `i2c::read` leaves behind: the link, and the buffer.
use esp32sx_c_plus_wrappers.Base.{
  ℕ, zero, suc, ◌+◌, ◌-◌, List, [], ◌∷◌, ◌++◌, ◌==◌, ◌*◌, ◌%◌, if◌then◌else◌, ◌≡◌, refl, arith,
}
use esp32sx_c_plus_wrappers.Base.Int.{ℤ, pos, negsuc}
use esp32sx_c_plus_wrappers.Driver.{Env, World}
use esp32sx_c_plus_wrappers.Driver.Script.{run_script, onto}
use esp32sx_c_plus_wrappers.I2c.{
  I2c, Call, link_create, link_delete, start, stop, write_byte, cmd_begin, read_bytes, read_byte,
  write, read, ack_val, nack_val,
}
use esp32sx_c_plus_wrappers.I2c.Frames.{
  transaction, write_frame, read_frame, write-eq-transaction, read-eq-transaction,
}

-- How often a link has been deleted.
abbrev pub deletes : ℕ → List Call → ℕ
deletes link [] = 0
deletes link (link_delete cmd ∷ cs) = (if cmd == link then 1 else 0) + deletes link cs
deletes link (_ ∷ cs) = deletes link cs

deletes-none :
    (link : ℕ) (c : Call) (cs log : List Call)
    → ((k : ℕ) → deletes k (c ∷ cs) ≡ 0)
    → (deletes link (c ∷ log) ≡ deletes link log) × ((k : ℕ) → deletes k cs ≡ 0)
deletes-none link (link_delete cmd) cs log h = absurd (ground (arith, h cmd))
deletes-none link _ cs log h = (refl, h)

deletes-run_script :
    (env : Env Call) (link : ℕ) (cs : List Call) (w : World I2c Call)
    → ((k : ℕ) → deletes k cs ≡ 0)
    → deletes link (run_script env cs w).1.log ≡ deletes link w.log
unfolding run_script
deletes-run_script env link [] w h = refl
deletes-run_script env link (c ∷ cs) w h =
    let (same, none_left) = deletes-none link c cs w.log h in
    ground (arith, same, deletes-run_script env link cs (record w { log = c ∷ w.log }) none_left)

deletes-transaction :
    (env : Env Call) (frame : ℕ → List Call) (w : World I2c Call)
    → ((cmd k : ℕ) → deletes k (frame cmd) ≡ 0)
    → (let link = env.code w.log link_create in
        deletes link (transaction env frame w).1.log
        ≡ deletes link w.log + (if (transaction env frame w).0 == 0 then 1 else 0))
unfolding transaction
deletes-transaction env frame w h =
    let cmd = env.code w.log link_create in
    ground (
      arith,
      deletes-run_script env cmd (frame cmd) (record w { log = link_create ∷ w.log }) (h cmd),
    )

deletes-write_frame :
    (o : I2c) (bytes : List ℕ) (reg : ℤ) (cmd k : ℕ) → deletes k (write_frame o cmd bytes reg) ≡ 0
deletes-write_frame o bytes (pos reg) cmd k = refl
deletes-write_frame o bytes (negsuc _) cmd k = refl

deletes-read_frame :
    (o : I2c) (len : ℕ) (reg : ℤ) (cmd k : ℕ) → deletes k (read_frame o cmd len reg) ≡ 0
deletes-read_frame o len (pos reg) cmd k = ground arith
deletes-read_frame o len (negsuc _) cmd k = ground arith

-- `i2c::write` and `i2c::read` delete the command link that they have made exactly when they return
-- ESP_OK: every error after the link was made leaves it undeleted.
pub deletes-write-read :
    (env : Env Call) (bytes : List ℕ) (len : ℕ) (reg : ℤ) (w : World I2c Call)
    → (let link = env.code w.log link_create in
        (deletes link (write env bytes reg w).1.log
          ≡ deletes link w.log + (if (write env bytes reg w).0 == 0 then 1 else 0))
        × (deletes link (read env len reg w).1.log
            ≡ deletes link w.log + (if (read env len reg w).0 == 0 then 1 else 0)))
deletes-write-read env bytes len reg w = (
  rw (write-eq-transaction env bytes reg w)
      (deletes-transaction env _ w (deletes-write_frame w.dev bytes reg)),
  rw (read-eq-transaction env len reg w)
      (deletes-transaction env _ w (deletes-read_frame w.dev len reg)),
)

-- Which offset of the buffer each received byte is stored at, and its acknowledge bit.
abbrev pub slots : ℕ → ℕ → ℕ → List (ℕ × ℕ)
slots off zero ack = []
slots off (suc n) ack = (off, ack) ∷ slots (off + 1) n ack

abbrev pub received : List Call → List (ℕ × ℕ)
received [] = []
received (read_bytes _ off n ack ∷ cs) = slots off n ack ++ received cs
received (read_byte _ off ack ∷ cs) = (off, ack) ∷ received cs
received (_ ∷ cs) = received cs

-- Every place of the buffer once, in order; all bytes but the last are acknowledged.
abbrev pub whole_buffer : ℕ → List (ℕ × ℕ)
whole_buffer len = slots 0 (len - 1) ack_val ++ ((len - 1, nack_val) ∷ [])

-- A call of the protocol on a link.
abbrev pub IsOn : ℕ → Call → Type 0
IsOn link (start cmd) = cmd ≡ link
IsOn link (stop cmd) = cmd ≡ link
IsOn link (write_byte cmd _) = cmd ≡ link
IsOn link (read_bytes cmd _ _ _) = cmd ≡ link
IsOn link (read_byte cmd _ _) = cmd ≡ link
IsOn link _ = ⊥

abbrev pub AllOn : ℕ → List Call → Type 0
AllOn link [] = Unit {0}
AllOn link (c ∷ cs) = IsOn link c × AllOn link cs

-- What a read that has succeeded has put on its link: the register is selected, if there is one;
-- after a START and the address with the read bit the data is read, then STOP is sent.
pub record Filled (o : I2c) (link len : ℕ) (before after : List Call) : Type 0 where
  pub selection : List Call
  pub data_calls : List Call
  pub log :
      after
      ≡ link_delete link
        ∷ cmd_begin o.port link 100
        ∷ stop link
        ∷ onto data_calls (
            write_byte link ((o.address * 2 + 1) % 256)
            ∷ start link
            ∷ onto selection (link_create ∷ before))
  pub on_link : AllOn link selection × AllOn link data_calls
  pub selects : received selection ≡ []
  pub fills : received data_calls ≡ whole_buffer len
