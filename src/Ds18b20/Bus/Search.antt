-- ===== src/Ds18b20/Bus/Search.antt =====
-- The two loops of `DS18B20::search` of components/ds18b20/ds18b20.cpp, one after the other.
use esp32sx_c_plus_wrappers.Base.{
  ℕ, zero, suc, List, [], ◌∷◌, ◌++◌, Bool, true, false, ◌≡◌, ◌≢◌, refl, sym, ap, ap₂, ◌∙◌, arith,
  length, replicate, take, drop, get_or, append_assoc, length-append,
}
use esp32sx_c_plus_wrappers.Driver.{Env, World}
use esp32sx_c_plus_wrappers.Driver.Script.{onto}
use esp32sx_c_plus_wrappers.Ds18b20.{
  Sensors, Call, search, collect, start_search, init_infos, init_info, find_devices, renew, release,
  allocate, free_infos, init_device,
}
use esp32sx_c_plus_wrappers.Ds18b20.Bus.{IsBus, start_search_finds}

-- The codes of the devices that have been initialised, the last first.
abbrev pub initialised : List Call → List ℕ
initialised [] = []
initialised (init_device _ rom ∷ log) = rom ∷ initialised log
initialised (_ ∷ log) = initialised log

get_or-append :
    (pre : List ℕ) (x : ℕ) (rest : List ℕ) → get_or (pre ++ (x ∷ rest)) (length pre) 0 ≡ x
get_or-append [] x rest = refl
get_or-append (y ∷ pre) x rest = get_or-append pre x rest

module _ (env : Env Call) where
  init_info-step :
      (use_crc : Bool) (i : ℕ) (w : World Sensors Call)
      → w.dev.num_devices ≢ 1
      → ((init_info env use_crc i w).1.dev.num_devices ≡ w.dev.num_devices)
        × ((init_info env use_crc i w).1.dev.device_rom_codes ≡ w.dev.device_rom_codes)
        × (initialised (init_info env use_crc i w).1.log
            ≡ get_or w.dev.device_rom_codes i 0 ∷ initialised w.log)
  unfolding init_info
  init_info-step use_crc i w h = (ground arith, ground arith, ground arith)

  init_info-keeps :
      (use_crc : Bool) (i : ℕ) (w : World Sensors Call)
      → ((init_info env use_crc i w).1.dev.num_devices ≡ w.dev.num_devices)
        × ((init_info env use_crc i w).1.dev.device_rom_codes ≡ w.dev.device_rom_codes)
  unfolding init_info
  init_info-keeps use_crc i w = (ground arith, ground arith)

  init_infos-keeps :
      (use_crc : Bool) (n i : ℕ) (w : World Sensors Call)
      → ((init_infos env use_crc n i w).1.dev.num_devices ≡ w.dev.num_devices)
        × ((init_infos env use_crc n i w).1.dev.device_rom_codes ≡ w.dev.device_rom_codes)
  unfolding init_infos
  init_infos-keeps use_crc zero i w = (refl, refl)
  init_infos-keeps use_crc (suc n) i w =
      let (num, codes) = init_info-keeps use_crc i w in
      let (num', codes') = init_infos-keeps use_crc n (suc i) (init_info env use_crc i w).1 in
      (num' ∙ num, codes' ∙ codes)

  -- `n` devices from the one numbered `i` are initialised with their own codes.
  init_infos-initialised :
      (use_crc : Bool) (n i : ℕ) (pre codes rest : List ℕ) (w : World Sensors Call)
      → w.dev.num_devices ≢ 1
      → w.dev.device_rom_codes ≡ pre ++ (codes ++ rest)
      → i ≡ length pre
      → n ≡ length codes
      → initialised (init_infos env use_crc n i w).1.log ≡ onto codes (initialised w.log)
  unfolding init_infos
  init_infos-initialised use_crc zero i pre [] rest w h c e l = refl
  init_infos-initialised use_crc zero i pre (x ∷ codes) rest w h c e l = absurd (omega arith)
  init_infos-initialised use_crc (suc n) i pre [] rest w h c e l = absurd (omega arith)
  init_infos-initialised use_crc (suc n) i pre (x ∷ codes) rest w h c e l =
      let (num, same, done) = init_info-step use_crc i w h in
      let v = (init_info env use_crc i w).1 in
      let here : get_or w.dev.device_rom_codes i 0 ≡ x =
        ap₂ (λ xs k. get_or xs k 0) c e ∙ get_or-append pre x (codes ++ rest) in
      init_infos-initialised use_crc n (suc i) (pre ++ (x ∷ [])) codes rest v
        (λ one. h (sym num ∙ one)) (same ∙ c ∙ sym (append_assoc pre (x ∷ []) (codes ++ rest)))
        (omega (arith, length-append pre (x ∷ []))) (omega arith)
      ∙ ap (onto codes) (done ∙ ap (λ y. y ∷ initialised w.log) here)

  allocated :
      (w : World Sensors Call)
      → (allocate env w).0 ≡ 0
      → ((allocate env w).1.dev.device_rom_codes ≡ replicate w.dev.max_num_devices 0)
        × ((allocate env w).1.dev.num_devices ≡ w.dev.num_devices)
        × ((allocate env w).1.dev.max_num_devices ≡ w.dev.max_num_devices)
        × ((allocate env w).1.dev.owb ≡ w.dev.owb)
  unfolding allocate
  allocated w h = (ground arith, ground arith, ground arith, ground arith)

  free_infos-keeps :
      (n i : ℕ) (w : World Sensors Call)
      → ((free_infos env n i w).1.dev.max_num_devices ≡ w.dev.max_num_devices)
        × ((free_infos env n i w).1.dev.owb ≡ w.dev.owb)
        × (initialised (free_infos env n i w).1.log ≡ initialised w.log)
  unfolding free_infos
  free_infos-keeps zero i w = (refl, refl, refl)
  free_infos-keeps (suc n) i w = free_infos-keeps n (suc i) _

  renewed :
      (w : World Sensors Call)
      → (renew env w).0 ≡ 0
      → ((renew env w).1.dev.device_rom_codes ≡ replicate w.dev.max_num_devices 0)
        × ((renew env w).1.dev.num_devices ≡ 0)
        × ((renew env w).1.dev.max_num_devices ≡ w.dev.max_num_devices)
        × ((renew env w).1.dev.owb ≡ w.dev.owb)
  unfolding renew release
  renewed w h =
      let (m, o, _) = free_infos-keeps w.dev.num_devices 0 w in
      let (codes, num, max, bus) = allocated (release env w).1 h in
      (codes ∙ ap (λ n. replicate n 0) m, num, max ∙ m, bus ∙ o)

  collect-keeps :
      (room code : ℕ) (found : Bool) (w : World Sensors Call)
      → initialised (collect env room code found w).1.log ≡ initialised w.log
  unfolding collect
  collect-keeps zero code found w = refl
  collect-keeps (suc room) code true w = collect-keeps room _ _ _
  collect-keeps (suc room) code false w = refl

  allocate-keeps : (w : World Sensors Call) → initialised (allocate env w).1.log ≡ initialised w.log
  unfolding allocate
  allocate-keeps w = ground arith

  renew-keeps : (w : World Sensors Call) → initialised (renew env w).1.log ≡ initialised w.log
  unfolding renew release
  renew-keeps w =
      let (_, _, kept) = free_infos-keeps w.dev.num_devices 0 w in
      allocate-keeps (release env w).1 ∙ kept

  search_ok :
      (use_crc : Bool) (w : World Sensors Call)
      → (renew env w).0 ≡ 0
      → search env use_crc w ≡ find_devices env use_crc (renew env w).1
  unfolding search
  search_ok use_crc w ok = ground arith

  -- The fields after the first loop.
  started :
      (roms : List ℕ) (w : World Sensors Call)
      → IsBus env w.dev.owb roms
      → (renew env w).0 ≡ 0
      → (let max = w.dev.max_num_devices in
          let v = (start_search env (renew env w).1).1.dev in
          (v.num_devices ≡ length (take max roms))
          × (v.device_rom_codes ≡ take max roms ++ drop (length roms) (replicate max 0)))
  started roms w bus ok =
      let (codes, num, max, same) = renewed w ok in
      let e =
        start_search_finds bus (renew env w).1 same num
          (codes ∙ ap (λ n. replicate n 0) (sym max)) in
      (
        ap Sensors.num_devices e ∙ ap (λ n. length (take n roms)) max,
        ap Sensors.device_rom_codes e
            ∙ ap (λ n. take n roms ++ drop (length roms) (replicate n 0)) max,
      )

  -- On a bus with the devices `roms`, a search that gets its memory finds as many of them as there
  -- is room for, the first ones of the bus, and stores their codes in the order of the bus.
  pub search_finds :
      (use_crc : Bool) (roms : List ℕ) (w : World Sensors Call)
      → IsBus env w.dev.owb roms
      → (renew env w).0 ≡ 0
      → (let max = w.dev.max_num_devices in
          ((search env use_crc w).0 ≡ length (take max roms))
          × ((search env use_crc w).1.dev.device_rom_codes
              ≡ take max roms ++ drop (length roms) (replicate max 0)))
  unfolding find_devices
  search_finds use_crc roms w bus ok =
      let (num, codes) = started roms w bus ok in
      let v = (start_search env (renew env w).1).1 in
      let (same_num, same) = init_infos-keeps use_crc v.dev.num_devices 0 v in
      (
        ap (λ r. r.0) (search_ok use_crc w ok) ∙ same_num ∙ num,
        ap (λ r. r.1.dev.device_rom_codes) (search_ok use_crc w ok) ∙ same ∙ codes,
      )

  -- If there are several, or none, then each device that was found has been initialised with its own
  -- code, and no other has.
  pub search_initialises :
      (use_crc : Bool) (roms : List ℕ) (w : World Sensors Call)
      → IsBus env w.dev.owb roms
      → (renew env w).0 ≡ 0
      → length (take w.dev.max_num_devices roms) ≢ 1
      → initialised (search env use_crc w).1.log
        ≡ onto (take w.dev.max_num_devices roms) (initialised w.log)
  unfolding find_devices
  search_initialises use_crc roms w bus ok many =
      let (num, codes) = started roms w bus ok in
      let v = (start_search env (renew env w).1).1 in
      ap (λ r. initialised r.1.log) (search_ok use_crc w ok)
      ∙ init_infos-initialised use_crc v.dev.num_devices 0 [] _ _ v (λ one. many (sym num ∙ one))
          codes refl num
      ∙ ap (onto (take w.dev.max_num_devices roms)) (collect-keeps _ _ _ _ ∙ renew-keeps w)
