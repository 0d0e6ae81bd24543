-- ===== src/Ds18b20.antt =====
-- components/ds18b20: temperature sensors on a one-wire bus. Logging is left out. A pointer is a
-- number, 0 is NULL, and an array is its pointer and its content; NULL and what is freed have none.
-- The flag `fault` is set by an access to an array behind its end. The counts are uint8_t.
pub mod Memory
pub mod Release
pub mod Bus
mod Tests
use esp32sx_c_plus_wrappers.Base.{
  ℕ, zero, suc, ◌+◌, ◌-◌, ◌%◌, List, [], ◌∷◌, ◌==◌, if◌then◌else◌, ltb, leb, Bool, true, false, not,
  ◌&&◌, ◌||◌, get_or, set, replicate, length,
}
use esp32sx_c_plus_wrappers.Base.Int.{ℤ, pos, negsuc}
use esp32sx_c_plus_wrappers.Driver.{
  Env, World, M, pure, ask, ask_int, tell, gets, modify, ◌>>=◌, ◌>>◌, ◌⨾◌,
}

pub record Sensors : Type 0 where
  pub num_devices : ℕ
  pub max_num_devices : ℕ
  pub owb : ℕ
  pub resolution : ℕ
  pub codes_ptr : ℕ
  pub devices_ptr : ℕ
  pub readings_ptr : ℕ
  pub errors_ptr : ℕ
  pub device_rom_codes : List ℕ
  pub devices : List ℕ
  pub readings : List ℤ
  pub errors : List ℕ
  pub fault : Bool

-- What an element of an array is.
pub data Elem : Type 0 where
  rom_code device reading error : Elem

-- The calls of owb and ds18b20. A search answers with whether it found a device (`int`) and the
-- device's code; `read_temp` with an error and the temperature (`int`).
pub data Call : Type 0 where
  calloc : ℕ → Elem → Call
  free : ℕ → Call
  rmt_initialize : Call
  uninitialize : ℕ → Call
  search_first search_next : ℕ → Call
  new_info : Call
  free_info : ℕ → Call
  init_solo : ℕ → Call
  init_device : ℕ → ℕ → Call
  use_crc_of : ℕ → Call
  set_resolution : ℕ → ℕ → Call
  check_parasite_power : ℕ → Call
  use_parasitic_power : ℕ → ℕ → Call
  convert_all : ℕ → Call
  wait_for_conversion : ℕ → Call
  read_temp : ℕ → Call

abbrev pub SensorM : Type 0 → Type 0
SensorM A = M Sensors Call A

abbrev pub esp_fail : ℕ
esp_fail = 4294967295

abbrev pub err_no_mem : ℕ
err_no_mem = 257

-- -253.0f
abbrev pub no_temp : ℤ
no_temp = negsuc 252

-- Whether an access to the element numbered `i` is one behind the end.
abbrev pub outside : {A : Type 0} → ℕ → List A → Bool
outside i xs = not (ltb i (length xs))

-- What `calloc` leaves behind the pointer `p`.
abbrev pub zeroed : {A : Type 0} → ℕ → ℕ → A → List A
zeroed p n z = if p == 0 then [] else replicate n z

module _ (env : Env Call) where
  -- `x = calloc(max_num_devices, sizeof(...)); if (x == NULL) return ESP_ERR_NO_MEM;`, where `put`
  -- stores the pointer and the zeros.
  abbrev pub new_array : Elem → (ℕ → Sensors → Sensors) → SensorM ℕ
  new_array elem put w =
      let c = calloc w.dev.max_num_devices elem in
      let p = env.code w.log c in
      (if p == 0 then err_no_mem else 0, record { dev = put p w.dev; log = c ∷ w.log })

  pub allocate : SensorM ℕ
  allocate =
      new_array rom_code
        (λ p o. record o { codes_ptr = p; device_rom_codes = zeroed p o.max_num_devices 0 })
      ⨾ new_array device
          (λ p o. record o { devices_ptr = p; devices = zeroed p o.max_num_devices 0 })
      ⨾ new_array reading
          (λ p o. record o { readings_ptr = p; readings = zeroed p o.max_num_devices (pos 0) })
      ⨾ new_array error (λ p o. record o { errors_ptr = p; errors = zeroed p o.max_num_devices 0 })

  pub deallocate : SensorM (Unit {0})
  deallocate = do
    o ← gets (λ o. o)
    tell env (free o.codes_ptr)
    tell env (free o.devices_ptr)
    tell env (free o.readings_ptr)
    tell env (free o.errors_ptr)
    modify (λ o. record o { device_rom_codes = []; devices = []; readings = []; errors = [] })

  -- `for (int i = 0; i < num_devices; ++i) ds18b20_free(&devices[i]);`
  pub free_infos : ℕ → ℕ → SensorM (Unit {0})
  free_infos zero i w = (tt, w)
  free_infos (suc n) i w = free_infos n (suc i) (record {
    dev = record w.dev {
      devices = set w.dev.devices i 0;
      fault = w.dev.fault || outside i w.dev.devices;
    };
    log = free_info (get_or w.dev.devices i 0) ∷ w.log;
  })

  abbrev pub found_by : Call → SensorM Bool
  found_by c w =
      (elim (env.int w.log c) [ pos (suc _) ↦ true | _ ↦ false ], record w { log = c ∷ w.log })

  -- The first loop of `search`, with room for as many devices as the first argument says.
  pub collect : ℕ → ℕ → Bool → SensorM (Unit {0})
  collect zero code found w = (tt, w)
  collect (suc room) code found w =
      let w' : World Sensors Call = record w {
        dev = record w.dev {
          device_rom_codes = set w.dev.device_rom_codes w.dev.num_devices code;
          num_devices = suc w.dev.num_devices;
          fault = w.dev.fault || outside w.dev.num_devices w.dev.device_rom_codes;
        };
      } in
      let c = search_next w.dev.owb in
      let rest = collect room (env.code w.log c) (found_by c w').0 (found_by c w').1 in
      if found then rest else (tt, w)

  -- One round of the second loop of `search`.
  pub init_info : Bool → ℕ → SensorM (Unit {0})
  init_info use_crc i = do
    o ← gets (λ o. o)
    info ← ask env new_info
    modify
        (λ o. record o { devices = set o.devices i info; fault = o.fault || outside i o.devices })
    if o.num_devices == 1 then tell env (init_solo info) else (do
      modify (λ o. record o { fault = o.fault || outside i o.device_rom_codes })
      tell env (init_device info (get_or o.device_rom_codes i 0)))
    if use_crc then tell env (use_crc_of info) else pure tt
    tell env (set_resolution info o.resolution)

  -- The second loop: `n` devices are left, from the one numbered `i`.
  pub init_infos : Bool → ℕ → ℕ → SensorM (Unit {0})
  init_infos use_crc zero i w = (tt, w)
  init_infos use_crc (suc n) i w = init_infos use_crc n (suc i) (init_info use_crc i w).1

  abbrev pub start_search : SensorM (Unit {0})
  start_search w =
      let c = search_first w.dev.owb in
      collect w.dev.max_num_devices (env.code w.log c) (found_by c w).0 (found_by c w).1

  -- `search` up to the allocation.
  pub release : SensorM (Unit {0})
  unfolding deallocate
  release = do
    o ← gets (λ o. o)
    free_infos o.num_devices 0
    modify (λ o. record o { num_devices = 0 })
    deallocate

  -- `search` up to the test of the allocation.
  pub renew : SensorM ℕ
  renew = do release; allocate

  -- `search` from there on.
  pub find_devices : Bool → SensorM ℕ
  find_devices use_crc = do
    start_search
    o ← gets (λ o. o)
    init_infos use_crc o.num_devices 0
    power ← ask env (check_parasite_power o.owb)
    tell env (use_parasitic_power o.owb power)
    gets (λ o. o.num_devices)

  pub search : Bool → SensorM ℕ
  search use_crc = do err ← renew; if err == 0 then find_devices use_crc else pure 0

  unfoldable pub init : SensorM ℕ
  unfolding search
  init = do
    bus ← ask env rmt_initialize
    modify (λ o. record o { owb = bus })
    if bus == 0 then pure esp_fail else (do search true; pure 0)

  -- The loop of `read`; the result counts the errors.
  pub read_temps : ℕ → ℕ → ℕ → SensorM ℕ
  read_temps zero i errors_count w = (errors_count, w)
  read_temps (suc n) i errors_count w =
      let c = read_temp (get_or w.dev.devices i 0) in
      let e = env.code w.log c in
      read_temps n (suc i) (if e == 0 then errors_count else suc errors_count) (record {
        dev = record w.dev {
          readings = set w.dev.readings i (env.int w.log c);
          errors = set w.dev.errors i e;
          fault =
              w.dev.fault
              || (outside i w.dev.devices || (outside i w.dev.readings || outside i w.dev.errors));
        };
        log = c ∷ w.log;
      })

  pub read : SensorM ℕ
  read = do
    o ← gets (λ o. o)
    if ltb 0 o.num_devices
        then (do
          tell env (convert_all o.owb)
          modify (λ o. record o { fault = o.fault || outside 0 o.devices })
          tell env (wait_for_conversion (get_or o.devices 0 0))
          read_temps o.num_devices 0 0)
        else pure 0

  pub add_sensors : ℕ → SensorM (Unit {0})
  unfolding search
  add_sensors num = do
    modify (λ o. record o { max_num_devices = (o.max_num_devices + num) % 256 })
    search true
    pure tt

  pub remove_sensors : ℕ → SensorM (Unit {0})
  unfolding search
  remove_sensors num = do
    modify (λ o. record o { max_num_devices = (o.max_num_devices + (256 - num)) % 256 })
    search true
    pure tt

  pub destroy : SensorM (Unit {0})
  unfolding deallocate
  destroy = do
    o ← gets (λ o. o)
    free_infos o.num_devices 0
    tell env (uninitialize o.owb)
    deallocate

unfoldable pub get_temp : ℕ → Sensors → ℤ
get_temp num o =
    if leb o.num_devices num || not (get_or o.errors num 0 == 0)
    then no_temp
    else get_or o.readings num (pos 0)
