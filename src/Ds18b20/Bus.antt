-- ===== src/Ds18b20/Bus.antt =====
-- What a search of components/ds18b20/ds18b20.cpp finds on a bus.
pub mod Search
use esp32sx_c_plus_wrappers.Base.{
  ◌<◌, ◌||◌, ℕ, zero, suc, ◌+◌, ◌≤◌, ◌<◌, List, [], ◌∷◌, ◌++◌, Bool, true, false, ◌≡◌, ◌≢◌, refl,
  sym, ap, ap₂, drop-nil, ◌∙◌, arith, inl, inr, length, ◌==◌, if◌then◌else◌, ltb, Bool-cases, set,
  length-set, length-replicate, replicate, take, drop, get_or, set-append, append_assoc,
  length-append, take-nil, append-nil,
}
use esp32sx_c_plus_wrappers.Base.Int.{ℤ, pos}
use esp32sx_c_plus_wrappers.Driver.{Env, World}
use esp32sx_c_plus_wrappers.Driver.Script.{onto}
use esp32sx_c_plus_wrappers.Ds18b20.{
  outside, Sensors, SensorM, Call, search, collect, found_by, search_first, search_next,
  start_search, init_infos, init_info, find_devices, renew, release, allocate, free_infos,
  init_device,
}

-- How often the search has gone on since it began.
abbrev pub nexts : List Call → ℕ
nexts [] = 0
nexts (search_next _ ∷ log) = suc (nexts log)
nexts (search_first _ ∷ log) = 0
nexts (_ ∷ log) = nexts log

-- The answer of a search that has `roms` left.
abbrev pub is_found : List ℕ → Bool
is_found [] = false
is_found (_ ∷ _) = true

abbrev pub head_code : List ℕ → ℕ
head_code [] = 0
head_code (rom ∷ _) = rom

-- A bus with the devices `roms`, which a search finds in this order.
pub record IsBus (env : Env Call) (owb : ℕ) (roms : List ℕ) : Type 0 where
  pub first_found :
      (log : List Call) → env.int log (search_first owb) ≡ (if is_found roms then pos 1 else pos 0)
  pub first_code : (log : List Call) → env.code log (search_first owb) ≡ head_code roms
  pub next_found :
      (log : List Call)
      → env.int log (search_next owb)
        ≡ (if is_found (drop (suc (nexts log)) roms) then pos 1 else pos 0)
  pub next_code :
      (log : List Call) → env.code log (search_next owb) ≡ head_code (drop (suc (nexts log)) roms)

drop-append : (pre todo : List ℕ) (rom : ℕ) → drop (suc (length pre)) (pre ++ (rom ∷ todo)) ≡ todo
drop-append [] todo rom = refl
drop-append (x ∷ pre) todo rom = drop-append pre todo rom

module _ {env : Env Call} {owb : ℕ} {roms : List ℕ} (bus : IsBus env owb roms) where
  found_by_next :
      (w : World Sensors Call)
      → (found_by env (search_next owb) w).0 ≡ is_found (drop (suc (nexts w.log)) roms)
  found_by_next w = elim (Bool-cases (is_found (drop (suc (nexts w.log)) roms))) [
    | inl y ↦ ground (arith, bus.next_found w.log)
    | inr n ↦ ground (arith, bus.next_found w.log)
  ]

  found_by_first : (w : World Sensors Call) → (found_by env (search_first owb) w).0 ≡ is_found roms
  found_by_first w = elim (Bool-cases (is_found roms)) [
    | inl y ↦ ground (arith, bus.first_found w.log)
    | inr n ↦ ground (arith, bus.first_found w.log)
  ]

  -- The next round starts from here.
  abbrev stored : ℕ → World Sensors Call → World Sensors Call
  stored rom w = record {
    dev = record w.dev {
      device_rom_codes = set w.dev.device_rom_codes w.dev.num_devices rom;
      num_devices = suc w.dev.num_devices;
      fault = w.dev.fault || outside w.dev.num_devices w.dev.device_rom_codes;
    };
    log = search_next w.dev.owb ∷ w.log;
  }

  collect-next :
      (room rom : ℕ) (todo : List ℕ) (w : World Sensors Call)
      → w.dev.owb ≡ owb
      → drop (suc (nexts w.log)) roms ≡ todo
      → collect env (suc room) rom true w
        ≡ collect env room (head_code todo) (is_found todo) (stored rom w)
  unfolding collect
  collect-next room rom todo w o d =
      ap₂ (λ code found. collect env room code found (stored rom w))
        (ap (λ b. env.code w.log (search_next b)) o ∙ bus.next_code w.log ∙ ap head_code d)
        (ap (λ b. (found_by env (search_next b) w).0) o ∙ found_by_next w ∙ ap is_found d)

  collect_finds :
      (room : ℕ) (pre todo blank : List ℕ) (w : World Sensors Call)
      → roms ≡ pre ++ todo
      → w.dev.owb ≡ owb
      → w.dev.num_devices ≡ length pre
      → nexts w.log ≡ length pre
      → w.dev.device_rom_codes ≡ pre ++ blank
      → length blank ≡ room
      → (collect env room (head_code todo) (is_found todo) w).1.dev ≡ record w.dev {
        device_rom_codes = pre ++ (take room todo ++ drop (length todo) blank);
        num_devices = length pre + length (take room todo);
      }
  unfolding collect
  collect_finds zero pre todo [] w e o n k c l = ground (arith, drop-nil ℕ (length todo))
  collect_finds zero pre todo (x ∷ blank) w e o n k c l = absurd (omega arith)
  collect_finds (suc room) pre [] blank w e o n k c l = ground arith
  collect_finds (suc room) pre (rom ∷ todo) [] w e o n k c l = absurd (omega arith)
  collect_finds (suc room) pre (rom ∷ todo) (x ∷ blank) w e o n k c l =
      let here : drop (suc (nexts w.log)) roms ≡ todo =
        ap₂ (λ i xs. drop (suc i) xs) k e ∙ drop-append pre todo rom in
      let size = length-append pre (rom ∷ []) in
      let places = length-append pre (x ∷ blank) in
      let places' : w.dev.num_devices < length w.dev.device_rom_codes = rw c (omega arith) in
      let inside : (w.dev.fault || outside w.dev.num_devices w.dev.device_rom_codes) ≡ w.dev.fault =
        ground arith in
      let codes : set w.dev.device_rom_codes w.dev.num_devices rom ≡ (pre ++ (rom ∷ [])) ++ blank =
        ap (λ xs. set xs w.dev.num_devices rom) c
        ∙ set-append pre blank x rom w.dev.num_devices n
        ∙ sym (append_assoc pre (rom ∷ []) blank) in
      ap (λ r. World.dev r.1) (collect-next room rom todo w o here)
      ∙ collect_finds room (pre ++ (rom ∷ [])) todo blank (stored rom w)
          (e ∙ sym (append_assoc pre (rom ∷ []) todo)) o (omega (arith, size, n))
          (omega (arith, size, k)) codes (omega (arith, l))
      ∙ ap
          (λ f. record w.dev {
            device_rom_codes = (pre ++ (rom ∷ [])) ++ (take room todo ++ drop (length todo) blank);
            num_devices = length (pre ++ (rom ∷ [])) + length (take room todo);
            fault = f;
          })
          inside
      ∙ ap₂ (λ xs i. record w.dev { device_rom_codes = xs; num_devices = i })
          (append_assoc pre (rom ∷ []) (take room todo ++ drop (length todo) blank))
          (omega (arith, size))

  -- The first loop of a search that starts with no devices and empty places for their codes.
  pub start_search_finds :
      (w : World Sensors Call)
      → w.dev.owb ≡ owb
      → w.dev.num_devices ≡ 0
      → w.dev.device_rom_codes ≡ replicate w.dev.max_num_devices 0
      → (start_search env w).1.dev ≡ record w.dev {
        device_rom_codes =
            take w.dev.max_num_devices roms
            ++ drop (length roms) (replicate w.dev.max_num_devices 0);
        num_devices = length (take w.dev.max_num_devices roms);
      }
  start_search_finds w o n c =
      let first : World Sensors Call = record w { log = search_first w.dev.owb ∷ w.log } in
      ap₂ (λ code found. (collect env w.dev.max_num_devices code found first).1.dev)
        (ap (λ b. env.code w.log (search_first b)) o ∙ bus.first_code w.log)
        (ap (λ b. (found_by env (search_first b) w).0) o ∙ found_by_first w)
      ∙ collect_finds w.dev.max_num_devices [] roms (replicate w.dev.max_num_devices 0) first refl o
          n refl c (length-replicate w.dev.max_num_devices 0)
      ∙ ap
          (λ i. record w.dev {
            device_rom_codes =
                take w.dev.max_num_devices roms
                ++ drop (length roms) (replicate w.dev.max_num_devices 0);
            num_devices = i;
          })
          (omega arith)
