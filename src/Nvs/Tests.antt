-- ===== src/Nvs/Tests.antt =====
-- A concrete namespace for components/nvs-comp.
use esp32sx_c_plus_wrappers.Base.{ℕ, zero, List, [], ◌∷◌, ◌≡◌, ap, refl, arith, true}
use esp32sx_c_plus_wrappers.Base.Int.{pos}
use esp32sx_c_plus_wrappers.Driver.{Env, World}
use esp32sx_c_plus_wrappers.Driver.Script.{onto}
use esp32sx_c_plus_wrappers.Nvs as N
use esp32sx_c_plus_wrappers.Nvs.{Nvs, Call, InfoLayout, NvsType, dump}
use esp32sx_c_plus_wrappers.Nvs.Dump.{Info, Walks, reads, wanted, dump-reads}

-- The first byte of a description says whether the value is a string, and the rest is its key.
abbrev type_of : List ℕ → NvsType
type_of (zero ∷ _) = N.str
type_of _ = N.u8

abbrev key_of : List ℕ → List ℕ
key_of [] = []
key_of (_ ∷ key) = key

abbrev layout : InfoLayout
layout = record { key = key_of; type = type_of }

abbrev infos : List Info
infos = (0 ∷ 65 ∷ []) ∷ (1 ∷ 66 ∷ []) ∷ []

-- The entries before the one iterator, which moves in place.
abbrev rest_of : List Info → List Info
rest_of [] = []
rest_of (_ ∷ rest) = rest

abbrev ahead : List Call → List Info
ahead [] = []
ahead (N.entry_find _ _ _ ∷ log) = infos
ahead (N.entry_next _ ∷ log) = rest_of (ahead log)
ahead (_ ∷ log) = ahead log

-- NULL at the end of the walk, and the same pointer before.
abbrev pointer : List Info → ℕ
pointer [] = 0
pointer (_ ∷ _) = 31

abbrev head_of : List Info → Info
head_of [] = []
head_of (info ∷ _) = info

abbrev env_two : Env Call
env_two = record {
  code = λ log c. elim c [
    | N.entry_find _ _ _ ↦ 31
    | N.entry_next it ↦ pointer (rest_of (ahead log))
    | _ ↦ 0
  ];
  int = λ _ _. pos 0;
  bytes = λ log c. elim c [ N.entry_info it ↦ head_of (ahead log) | _ ↦ [] ];
}

abbrev object : World Nvs Call
object = record {
  dev = record { my_handle = 2; part_name = 80 ∷ []; namespace = 81 ∷ []; itr = 0 };
  log = [];
}

abbrev On : List Call → ℕ → List Info → Type 0
On log it rest = (ahead log ≡ rest) × (it ≡ pointer rest)

env_two-Walks : Walks env_two (80 ∷ []) (81 ∷ []) infos On
env_two-Walks = record {
  found = λ log. (refl, refl);
  followed = λ log it info rest (e, _). (ap rest_of e, ap (λ xs. pointer (rest_of xs)) e);
  described = λ log it info rest (e, _). ap head_of e;
  kept_info = λ log it rest on. on;
  kept_get = λ log it rest t h key on. on;
  at_end = λ log it (_, i). i;
  there = λ log it info rest (_, i). omega arith;
}

dump-reads_example :
    ((dump env_two layout 3 object).0 ≡ true)
    × (reads (dump env_two layout 3 object).1.log ≡ onto (wanted layout 2 infos) [])
dump-reads_example = dump-reads env_two-Walks layout 3 object (omega arith) refl refl refl
