-- ===== src/I2c/Scan/Found.antt =====
-- A scan finds the devices of the bus.
use esp32sx_c_plus_wrappers.Base.{
  ℕ, zero, suc, ◌+◌, ◌≤◌, ◌<◌, List, [], ◌∷◌, ◌++◌, ◌==◌, if◌then◌else◌, ltb, ◌≡◌, ◌≢◌, refl, ap,
  ◌∙◌, arith, Bool, true, Bool-cases, inl, inr, Option, some, set, length, take, drop, take-nil,
  append_assoc, length-append, set-append, sym,
}
use esp32sx_c_plus_wrappers.Base.Int.{pos}
use esp32sx_c_plus_wrappers.Driver.{Env, World}
use esp32sx_c_plus_wrappers.I2c.{
  I2c, Call, master, link_create, start, stop, write_byte, cmd_begin, address_byte,
}
use esp32sx_c_plus_wrappers.I2c.Scan.{store, absent, present, probe, scan_from, scan}

-- A bus on which the devices `on` answer their address: links can be made, commands can be queued
-- on them, and running a link that holds an address alone succeeds for the devices alone.
pub record IsBus (env : Env Call) (port : ℕ) (on : ℕ → Bool) : Type 0 where
  pub linked : (log : List Call) → env.code log link_create ≢ 0
  pub started : (log : List Call) (cmd : ℕ) → env.code log (start cmd) ≡ 0
  pub queued : (log : List Call) (cmd byte : ℕ) → env.code log (write_byte cmd byte) ≡ 0
  pub stopped : (log : List Call) (cmd : ℕ) → env.code log (stop cmd) ≡ 0
  pub answered :
      (log : List Call) (cmd address : ℕ)
      → (env.code
            (stop cmd ∷ write_byte cmd (address_byte address 0) ∷ start cmd ∷ log)
            (cmd_begin port cmd 100)
          == 0)
        ≡ on address

-- The devices among the `n` addresses from `address` on.
pub devices : (ℕ → Bool) → ℕ → ℕ → List ℕ
devices on zero address = []
devices on (suc n) address =
    let rest = devices on n (address + 1) in if on address then address ∷ rest else rest

fill : Option (List ℕ) → ℕ → ℕ → List ℕ → Option (List ℕ)
fill buf num count [] = buf
fill buf num count (a ∷ found) = fill (store buf num count a) num (count + 1) found

module _ {env : Env Call} {port : ℕ} {on : ℕ → Bool} (bus : IsBus env port on) where
  probe_on :
      (address : ℕ) (w : World I2c Call)
      → w.dev.port ≡ port
      → ((probe env address w).0 ≡ (if on address then present else absent))
        × ((probe env address w).1.dev ≡ w.dev)
  unfolding probe
  probe_on address w e =
      let cmd = env.code w.log link_create in
      let log : List Call = link_create ∷ w.log in
      ground (
        arith,
        bus.linked w.log,
        bus.started log cmd,
        bus.queued (start cmd ∷ log) cmd (address_byte address 0),
        bus.stopped (write_byte cmd (address_byte address 0) ∷ start cmd ∷ log) cmd,
        bus.answered log cmd address,
      )

  scan_from_finds :
      (n address num count : ℕ) (buf : Option (List ℕ)) (w : World I2c Call)
      → w.dev.port ≡ port
      → count + n < 256
      → (scan_from env n address num count buf w).0
        ≡ (pos (count + length (devices on n address)), fill buf num count (devices on n address))
  unfolding scan_from devices fill
  scan_from_finds zero address num count buf w e h = ground arith
  scan_from_finds (suc n) address num count buf w e h =
      let (found, kept) = probe_on address w e in
      let v = (probe env address w).1 in
      elim (Bool-cases (on address)) [
        | inl there ↦ ground (
          arith,
          found,
          kept,
          scan_from_finds n (address + 1) num (count + 1) (store buf num count address) v,
        )
        | inr nothing ↦ ground (arith, found, kept, scan_from_finds n (address + 1) num count buf v)
      ]

fill_when_full :
    (buf : List ℕ) (num count : ℕ) (found : List ℕ)
    → num ≤ count
    → fill (some buf) num count found ≡ some buf
unfolding fill
fill_when_full buf num count [] h = refl
fill_when_full buf num count (a ∷ found) h =
    ground (arith, fill_when_full buf num (count + 1) found)

fill-some :
    (pre rest found : List ℕ) (num count : ℕ)
    → num ≡ length pre + length rest
    → count ≡ length pre
    → fill (some (pre ++ rest)) num count found
      ≡ some (pre ++ (take (length rest) found ++ drop (length found) rest))
unfolding fill
fill-some pre rest [] num count e f = rw take-nil
fill-some pre [] (a ∷ found) num count e f =
    fill_when_full (pre ++ []) num count (a ∷ found) (omega arith)
fill-some pre (x ∷ rest) (a ∷ found) num count e f =
    let room : ltb count num ≡ true = ground arith in
    let here : set (pre ++ (x ∷ rest)) count a ≡ (pre ++ (a ∷ [])) ++ rest =
      set-append pre rest x a count f ∙ sym (append_assoc pre (a ∷ []) rest) in
    let size = length-append pre (a ∷ []) in
    rw (room, here)
      (fill-some (pre ++ (a ∷ [])) rest found num (count + 1) (omega (arith, size))
          (omega (arith, size))
        ∙ ap some
            (append_assoc pre (a ∷ []) (take (length rest) found ++ drop (length found) rest)))

-- On a bus with the devices `on`, a master's scan returns how many of them there are, and stores
-- their addresses in ascending order in the places of the buffer, as many as there are places; the
-- places beyond keep what they held.
pub scan_finds :
    {env : Env Call} {on : ℕ → Bool} (buf : List ℕ) (w : World I2c Call)
    → IsBus env w.dev.port on
    → w.dev.mode ≡ master
    → let found = devices on 126 1 in
      (scan env (length buf) (some buf) w).0
      ≡ (pos (length found), some (take (length buf) found ++ drop (length found) buf))
unfolding scan
scan_finds {env} {on} buf w bus e = ground (
  arith,
  scan_from_finds bus 126 1 (length buf) 0 (some buf) w refl (omega arith),
  fill-some [] buf (devices on 126 1) (length buf) 0 (omega arith) refl,
)
