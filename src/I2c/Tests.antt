-- ===== src/I2c/Tests.antt =====
-- Concrete buses for components/i2c-comp.
use esp32sx_c_plus_wrappers.Base.{
  ℕ, ◌+◌, List, [], ◌∷◌, ◌++◌, ◌==◌, if◌then◌else◌, Bool, ◌≡◌, refl, arith, some, length, take,
  drop,
}
use esp32sx_c_plus_wrappers.Base.Int.{pos}
use esp32sx_c_plus_wrappers.Driver.{Env, World}
use esp32sx_c_plus_wrappers.I2c as I
use esp32sx_c_plus_wrappers.I2c.{
  I2c, Call, master, link_create, link_delete, write_byte, stop, address_byte,
}
use esp32sx_c_plus_wrappers.I2c.Outcome.{deletes, deletes-write-read}
use esp32sx_c_plus_wrappers.I2c.Scan.{scan}
use esp32sx_c_plus_wrappers.I2c.Scan.Found.{IsBus, devices, scan_finds}

-- Links can be made, and every call succeeds.
abbrev env_ok : Env Call
env_ok = record {
  code = λ log c. elim c [ link_create ↦ 7 | _ ↦ 0 ];
  int = λ _ _. pos 0;
  bytes = λ _ _. [];
}

abbrev bus : I2c
bus = record { address = 0x50; port = 0; mode = master; sda = 21; scl = 22 }

abbrev fresh : World I2c Call
fresh = record { dev = bus; log = [] }

deletes-write-read_example :
    (deletes 7 (I.write env_ok (1 ∷ 2 ∷ []) (pos 5) fresh).1.log
      ≡ 0 + (if (I.write env_ok (1 ∷ 2 ∷ []) (pos 5) fresh).0 == 0 then 1 else 0))
    × (deletes 7 (I.read env_ok 3 (pos 5) fresh).1.log
        ≡ 0 + (if (I.read env_ok 3 (pos 5) fresh).0 == 0 then 1 else 0))
deletes-write-read_example = deletes-write-read env_ok (1 ∷ 2 ∷ []) 3 (pos 5) fresh

-- The device with the address 0x50 answers.
abbrev answer : ℕ → List Call → ℕ
answer port (stop _ ∷ write_byte _ byte ∷ _) = if byte == 160 then 0 else 1
answer port _ = 0

abbrev env_bus : Env Call
env_bus = record {
  code = λ log c. elim c [ link_create ↦ 7 | I.cmd_begin port _ _ ↦ answer port log | _ ↦ 0 ];
  int = λ _ _. pos 0;
  bytes = λ _ _. [];
}

abbrev here : ℕ → Bool
here address = address_byte address 0 == 160

env_bus-IsBus : IsBus env_bus 0 here
env_bus-IsBus = record {
  linked = λ log. omega arith;
  started = λ log cmd. refl;
  queued = λ log cmd byte. refl;
  stopped = λ log cmd. refl;
  answered = λ log cmd address. ground arith;
}

scan_finds_example : (scan env_bus 2 (some (9 ∷ 9 ∷ [])) fresh).0 ≡ (
  pos (length (devices here 126 1)),
  some (take 2 (devices here 126 1) ++ drop (length (devices here 126 1)) (9 ∷ 9 ∷ [])),
)
scan_finds_example = scan_finds (9 ∷ 9 ∷ []) fresh env_bus-IsBus refl
