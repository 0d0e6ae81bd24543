-- ===== src/Ds18b20/Release.antt =====
-- What components/ds18b20/ds18b20.cpp leaves of its arrays when there is no memory for new ones.
use esp32sx_c_plus_wrappers.Base.{List, [], ◌∷◌, Bool, ◌≡◌, refl, arith}
use esp32sx_c_plus_wrappers.Driver.{Env, World}
use esp32sx_c_plus_wrappers.Ds18b20.{
  Sensors, Call, calloc, rom_code, err_no_mem, free, uninitialize, allocate, release, renew, search,
  destroy, free_infos,
}

-- The history after the arrays are freed.
abbrev pub released : Sensors → List Call → List Call
released o log =
    free o.errors_ptr ∷ free o.readings_ptr ∷ free o.devices_ptr ∷ free o.codes_ptr ∷ log

module _ (env : Env Call) where
  release_none :
      (w : World Sensors Call)
      → w.dev.num_devices ≡ 0
      → (release env w).1 ≡ record {
        dev = record w.dev {
          num_devices = 0;
          device_rom_codes = [];
          devices = [];
          readings = [];
          errors = [];
        };
        log = released w.dev w.log;
      }
  unfolding release free_infos
  release_none w z = ground arith

  allocate_failed :
      (w : World Sensors Call)
      → env.code w.log (calloc w.dev.max_num_devices rom_code) ≡ 0
      → allocate env w ≡ (
        err_no_mem,
        record {
          dev = record w.dev { codes_ptr = 0; device_rom_codes = [] };
          log = calloc w.dev.max_num_devices rom_code ∷ w.log;
        },
      )
  unfolding allocate
  allocate_failed w h = rw h

  search_failed :
      (use_crc : Bool) (w : World Sensors Call)
      → w.dev.num_devices ≡ 0
      → env.code (released w.dev w.log) (calloc w.dev.max_num_devices rom_code) ≡ 0
      → (search env use_crc w).1 ≡ record {
        dev = record w.dev {
          num_devices = 0;
          codes_ptr = 0;
          device_rom_codes = [];
          devices = [];
          readings = [];
          errors = [];
        };
        log = calloc w.dev.max_num_devices rom_code ∷ released w.dev w.log;
      }
  unfolding search renew
  search_failed use_crc w z h =
      let r = release_none w z in ground (arith, r, allocate_failed (release env w).1)

  destroy_none :
      (w : World Sensors Call)
      → w.dev.num_devices ≡ 0
      → (destroy env w).1.log ≡ released w.dev (uninitialize w.dev.owb ∷ w.log)
  unfolding destroy free_infos
  destroy_none w z = ground arith

  -- A search of an object without devices that gets no memory, and the destructor after it: the
  -- arrays that the search has freed are freed once more.
  pub destroy-search :
      (use_crc : Bool) (w : World Sensors Call)
      → w.dev.num_devices ≡ 0
      → env.code (released w.dev w.log) (calloc w.dev.max_num_devices rom_code) ≡ 0
      → (destroy env (search env use_crc w).1).1.log
        ≡ released
            (record w.dev { codes_ptr = 0 })
            (uninitialize w.dev.owb ∷ calloc w.dev.max_num_devices rom_code ∷ released w.dev w.log)
  destroy-search use_crc w z h = let f = search_failed use_crc w z h in rw f (destroy_none _ refl)
