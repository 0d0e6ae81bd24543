-- ===== src/Ds18b20/Memory.antt =====
-- The arrays of components/ds18b20/ds18b20.cpp, and the accesses to their elements.
use esp32sx_c_plus_wrappers.Base.{
  ℕ, zero, suc, ◌+◌, ◌<◌, ◌≤◌, List, [], ◌∷◌, Bool, true, false, ◌≡◌, refl, ◌∙◌, arith, inl, inr,
  length, ◌==◌, ltb, Bool-cases, length-set, length-replicate,
}
use esp32sx_c_plus_wrappers.Base.Int.{pos}
use esp32sx_c_plus_wrappers.Driver.{Env, World}
use esp32sx_c_plus_wrappers.Ds18b20.{
  Sensors, SensorM, Call, new_info, allocate, release, renew, find_devices, search, read,
  read_temps, collect, init_infos, init_info, free_infos, add_sensors, remove_sensors, start_search,
}

-- Every device that is counted has a place in each array, and no array has been accessed behind its
-- end.
pub record InBounds (o : Sensors) : Type 0 where
  pub codes : o.num_devices ≤ length o.device_rom_codes
  pub infos : o.num_devices ≤ length o.devices
  pub temps : o.num_devices ≤ length o.readings
  pub errs : o.num_devices ≤ length o.errors
  pub fine : o.fault ≡ false

-- The arrays have room for `n` devices more.
abbrev Room : ℕ → Sensors → Type 0
Room n o =
    (o.num_devices + n ≤ length o.device_rom_codes)
    × (o.num_devices + n ≤ length o.devices)
    × (o.num_devices + n ≤ length o.readings)
    × (o.num_devices + n ≤ length o.errors)
    × (o.fault ≡ false)

Room-InBounds : (n : ℕ) (o : Sensors) → Room n o → InBounds o
Room-InBounds n o (c, d, r, e, f) = record {
  codes = omega arith;
  infos = omega arith;
  temps = omega arith;
  errs = omega arith;
  fine = f;
}

-- What a client does with the sensors.
pub data Op : Type 0 where
  searching : Bool → Op
  reading_all : Op
  adding removing : ℕ → Op

module _ (env : Env Call) where
  collect-InBounds :
      (n code : ℕ) (found : Bool) (w : World Sensors Call)
      → Room n w.dev
      → InBounds (collect env n code found w).1.dev
  unfolding collect
  collect-InBounds zero code found w h = Room-InBounds zero w.dev h
  collect-InBounds (suc n) code false w h = Room-InBounds (suc n) w.dev h
  collect-InBounds (suc n) code true w h =
      let sized = length-set w.dev.device_rom_codes w.dev.num_devices code in
      let (c, d, r, e, f) = h in
      collect-InBounds n _ _ _
        (omega (arith, sized), omega arith, omega arith, omega arith, ground arith)

  -- An allocation without an error has given all four arrays.
  allocate_ok :
      (w : World Sensors Call)
      → w.dev.num_devices ≡ 0
      → w.dev.fault ≡ false
      → (allocate env w).0 ≡ 0
      → Room w.dev.max_num_devices (allocate env w).1.dev
        × ((allocate env w).1.dev.max_num_devices ≡ w.dev.max_num_devices)
        × ((allocate env w).1.dev.num_devices ≡ 0)
  unfolding allocate
  allocate_ok w z f h =
      let n = length-replicate {A = ℕ} w.dev.max_num_devices 0 in
      let r = length-replicate w.dev.max_num_devices (pos 0) in
      (
        (ground (arith, n), ground (arith, n), ground (arith, r), ground (arith, n), ground arith),
        ground arith,
        ground arith,
      )

  allocate-keeps :
      (w : World Sensors Call)
      → ((allocate env w).1.dev.num_devices ≡ w.dev.num_devices)
        × ((allocate env w).1.dev.fault ≡ w.dev.fault)
  unfolding allocate
  allocate-keeps w = (ground arith, ground arith)

  init_info-step :
      (use_crc : Bool) (i : ℕ) (w : World Sensors Call)
      → i < w.dev.num_devices
      → InBounds w.dev
      → (let o = (init_info env use_crc i w).1.dev in
          InBounds o × (o.num_devices ≡ w.dev.num_devices))
  unfolding init_info
  init_info-step use_crc i w l h =
      let sized = length-set w.dev.devices i (env.code w.log new_info) in
      let codes = h.codes in
      let infos = h.infos in
      (
        record {
          codes = ground (arith, h.codes);
          infos = ground (arith, h.infos);
          temps = ground (arith, h.temps);
          errs = ground (arith, h.errs);
          fine = ground (arith, h.fine);
        },
        ground arith,
      )

  init_infos-InBounds :
      (use_crc : Bool) (n i : ℕ) (w : World Sensors Call)
      → i + n ≤ w.dev.num_devices
      → InBounds w.dev
      → InBounds (init_infos env use_crc n i w).1.dev
  unfolding init_infos
  init_infos-InBounds use_crc zero i w l h = h
  init_infos-InBounds use_crc (suc n) i w l h =
      let (h', num) = init_info-step use_crc i w (omega arith) h in
      init_infos-InBounds use_crc n (suc i) (init_info env use_crc i w).1 (omega (arith, num)) h'

  read_temps-InBounds :
      (n i errors_count : ℕ) (w : World Sensors Call)
      → i + n ≤ w.dev.num_devices
      → InBounds w.dev
      → InBounds (read_temps env n i errors_count w).1.dev
  unfolding read_temps
  read_temps-InBounds zero i errors_count w l h = h
  read_temps-InBounds (suc n) i errors_count w l h =
      let t = length-set w.dev.readings i in
      let s = length-set w.dev.errors i in
      read_temps-InBounds n (suc i) _ _ (omega arith) (record {
        codes = h.codes;
        infos = h.infos;
        temps = omega (arith, t _, h.temps);
        errs = omega (arith, s _, h.errs);
        fine = ground (arith, h.fine, h.infos, h.temps, h.errs);
      })

  free_infos-keeps :
      (n i : ℕ) (w : World Sensors Call)
      → i + n ≤ length w.dev.devices
      → w.dev.fault ≡ false
      → ((free_infos env n i w).1.dev.fault ≡ false)
        × ((free_infos env n i w).1.dev.max_num_devices ≡ w.dev.max_num_devices)
  unfolding free_infos
  free_infos-keeps zero i w l f = (f, refl)
  free_infos-keeps (suc n) i w l f =
      let sized = length-set w.dev.devices i 0 in
      free_infos-keeps n (suc i) _ (omega (arith, sized)) (ground arith)

  start_search-InBounds :
      (w : World Sensors Call)
      → w.dev.num_devices ≡ 0
      → Room w.dev.max_num_devices w.dev
      → InBounds (start_search env w).1.dev
  start_search-InBounds w z h = collect-InBounds w.dev.max_num_devices _ _ _ h

  release-step :
      (w : World Sensors Call)
      → InBounds w.dev
      → (let o = (release env w).1.dev in
          (o.num_devices ≡ 0) × (o.fault ≡ false) × (o.max_num_devices ≡ w.dev.max_num_devices))
  unfolding release
  release-step w h =
      let (f, m) = free_infos-keeps w.dev.num_devices 0 w (omega (arith, h.infos)) h.fine in
      (refl, f, m)

  renew_ok :
      (w : World Sensors Call)
      → InBounds w.dev
      → (renew env w).0 ≡ 0
      → Room (renew env w).1.dev.max_num_devices (renew env w).1.dev
        × ((renew env w).1.dev.num_devices ≡ 0)
  unfolding renew
  renew_ok w i h =
      let (z, f, m) = release-step w i in
      let (room, same, zero_devices) = allocate_ok (release env w).1 z f h in
      (rw same room, zero_devices)

  renew-keeps :
      (w : World Sensors Call)
      → InBounds w.dev
      → ((renew env w).1.dev.num_devices ≡ 0) × ((renew env w).1.dev.fault ≡ false)
  unfolding renew
  renew-keeps w i =
      let (z, f, _) = release-step w i in
      let (num, fault) = allocate-keeps (release env w).1 in (num ∙ z, fault ∙ f)

  find_devices-InBounds :
      (use_crc : Bool) (w : World Sensors Call)
      → w.dev.num_devices ≡ 0
      → Room w.dev.max_num_devices w.dev
      → InBounds (find_devices env use_crc w).1.dev
  unfolding find_devices
  find_devices-InBounds use_crc w z h =
      init_infos-InBounds use_crc _ 0 (start_search env w).1 (omega arith)
        (start_search-InBounds w z h)

  search-InBounds :
      (use_crc : Bool) (w : World Sensors Call)
      → InBounds w.dev
      → InBounds (search env use_crc w).1.dev
  unfolding search
  search-InBounds use_crc w i = elim (Bool-cases ((renew env w).0 == 0)) [
    | inl ok ↦
        let (room, zero_devices) = renew_ok w i (ground arith) in
        rw ok (find_devices-InBounds use_crc (renew env w).1 zero_devices room)
    | inr bad ↦
        let (none_left, f) = renew-keeps w i in
        rw bad (record {
          codes = omega arith;
          infos = omega arith;
          temps = omega arith;
          errs = omega arith;
          fine = f;
        })
  ]

  read-InBounds : (w : World Sensors Call) → InBounds w.dev → InBounds (read env w).1.dev
  unfolding read
  read-InBounds w h = elim (Bool-cases (ltb 0 w.dev.num_devices)) [
    | inl some_there ↦ rw some_there (
        read_temps-InBounds w.dev.num_devices 0 0 _ (omega arith) (record {
          codes = h.codes;
          infos = h.infos;
          temps = h.temps;
          errs = h.errs;
          fine = ground (arith, h.fine, h.infos);
        }))
    | inr none_there ↦ rw none_there h
  ]

  abbrev pub run : Op → SensorM (Unit {0})
  run (searching use_crc) w = (tt, (search env use_crc w).1)
  run reading_all w = (tt, (read env w).1)
  run (adding n) w = add_sensors env n w
  run (removing n) w = remove_sensors env n w

  abbrev pub run_all : List Op → SensorM (Unit {0})
  run_all [] w = (tt, w)
  run_all (op ∷ ops) w = run_all ops (run op w).1

  sized : (n : ℕ) (o : Sensors) → InBounds o → InBounds (record o { max_num_devices = n })
  sized n o h = record {
    codes = h.codes;
    infos = h.infos;
    temps = h.temps;
    errs = h.errs;
    fine = h.fine;
  }

  run-InBounds : (op : Op) (w : World Sensors Call) → InBounds w.dev → InBounds (run op w).1.dev
  unfolding add_sensors remove_sensors
  run-InBounds (searching use_crc) w h = search-InBounds use_crc w h
  run-InBounds reading_all w h = read-InBounds w h
  run-InBounds (adding n) w h = search-InBounds true _ (sized _ w.dev h)
  run-InBounds (removing n) w h = search-InBounds true _ (sized _ w.dev h)

  -- From an object whose counted devices have their places in the arrays, as one without devices,
  -- any sequence of searches, readings, additions and removals accesses no array behind its end, and
  -- leaves the counted devices places in the arrays. It is so whatever the bus and the allocator
  -- answer, NULL among it.
  pub run_all-InBounds :
      (ops : List Op) (w : World Sensors Call) → InBounds w.dev → InBounds (run_all ops w).1.dev
  run_all-InBounds [] w h = h
  run_all-InBounds (op ∷ ops) w h = run_all-InBounds ops (run op w).1 (run-InBounds op w h)
