-- ===== src/Ds18b20/Tests.antt =====
-- Concrete buses for components/ds18b20.
use esp32sx_c_plus_wrappers.Base.{
  ℕ, suc, List, [], ◌∷◌, ◌++◌, if◌then◌else◌, true, false, ◌≡◌, refl, length, take, drop, replicate,
  arith,
}
use esp32sx_c_plus_wrappers.Base.Int.{ℤ, pos}
use esp32sx_c_plus_wrappers.Driver.{Env, World}
use esp32sx_c_plus_wrappers.Ds18b20 as S
use esp32sx_c_plus_wrappers.Ds18b20.{
  Sensors, Call, search, renew, release, allocate, destroy, free_infos,
}
use esp32sx_c_plus_wrappers.Ds18b20.Memory.{
  InBounds, Op, searching, reading_all, adding, removing, run_all, run_all-InBounds,
}
use esp32sx_c_plus_wrappers.Ds18b20.Bus.{IsBus, nexts, is_found, head_code}
use esp32sx_c_plus_wrappers.Ds18b20.Bus.Search.{search_finds}

abbrev roms : List ℕ
roms = 101 ∷ 102 ∷ 103 ∷ []

abbrev code : List Call → Call → ℕ
code log (S.calloc _ _) = 8
code log (S.search_first _) = head_code roms
code log (S.search_next _) = head_code (drop (suc (nexts log)) roms)
code log S.new_info = 9
code log _ = 0

abbrev found : List Call → Call → ℤ
found log (S.search_first _) = if is_found roms then pos 1 else pos 0
found log (S.search_next _) = if is_found (drop (suc (nexts log)) roms) then pos 1 else pos 0
found log _ = pos 20

abbrev env_bus : Env Call
env_bus = record { code = code; int = found; bytes = λ _ _. [] }

env_bus-IsBus : IsBus env_bus 1 roms
env_bus-IsBus = record {
  first_found = λ log. refl;
  first_code = λ log. refl;
  next_found = λ log. refl;
  next_code = λ log. refl;
}

-- Room for two devices.
abbrev object : World Sensors Call
object = record {
  dev = record {
    num_devices = 0;
    max_num_devices = 2;
    owb = 1;
    resolution = 12;
    codes_ptr = 4;
    devices_ptr = 5;
    readings_ptr = 6;
    errors_ptr = 7;
    device_rom_codes = 0 ∷ 0 ∷ [];
    devices = 0 ∷ 0 ∷ [];
    readings = pos 0 ∷ pos 0 ∷ [];
    errors = 0 ∷ 0 ∷ [];
    fault = false;
  };
  log = [];
}

renewed : (renew env_bus object).0 ≡ 0
unfolding renew release allocate free_infos
renewed = refl

search_finds_example :
    ((search env_bus true object).0 ≡ length (take 2 roms))
    × ((search env_bus true object).1.dev.device_rom_codes
        ≡ take 2 roms ++ drop (length roms) (replicate 2 0))
search_finds_example = search_finds env_bus true roms object env_bus-IsBus renewed

abbrev ops : List Op
ops = reading_all ∷ adding 1 ∷ reading_all ∷ removing 2 ∷ searching false ∷ []

object-InBounds : InBounds object.dev
object-InBounds = record {
  codes = omega arith;
  infos = omega arith;
  temps = omega arith;
  errs = omega arith;
  fine = refl;
}

run_all-InBounds_example : InBounds (run_all env_bus (searching true ∷ ops) object).1.dev
run_all-InBounds_example = run_all-InBounds env_bus (searching true ∷ ops) object object-InBounds
