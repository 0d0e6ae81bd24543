-- ===== src/Ota/Tests.antt =====
-- Concrete updates for components/ota-comp.
use esp32sx_c_plus_wrappers.Base.{
  ℕ, List, [], ◌∷◌, ◌==◌, if◌then◌else◌, Bool, false, ◌≡◌, ◌≢◌, refl, take,
}
use esp32sx_c_plus_wrappers.Base.Int.{pos}
use esp32sx_c_plus_wrappers.Driver.{Env, World}
use esp32sx_c_plus_wrappers.Ota as O
use esp32sx_c_plus_wrappers.Ota.{Ota, Call, Layout, begin, write}
use esp32sx_c_plus_wrappers.Ota.Session.{
  write_all, update, Installed, acceptable, flashed, update-Installed, update-rejected,
}

-- Small headers, and a description that begins with a version of two bytes.
abbrev layout : Layout
layout = record { header_size = 1; segment_size = 1; desc_size = 2; version = take 2 }

-- Partition 9 holds the image that was rolled back, with the version 6 6.
abbrev env_ok : Env Call
env_ok = record {
  code = λ log c. elim c [ O.last_invalid_partition ↦ 9 | _ ↦ 0 ];
  int = λ _ _. pos 4;
  bytes = λ log c. elim c [ O.description p ↦ if p == 9 then 6 ∷ 6 ∷ [] else 5 ∷ 5 ∷ [] | _ ↦ [] ];
}

abbrev object : Bool → World Ota Call
object checked = record {
  dev = record {
    update_partition = 2;
    configured = 1;
    running = 1;
    update_handle = pos 0;
    image_header_was_checked = checked;
  };
  log = [];
}

abbrev image : List ℕ
image = 0xe9 ∷ 0 ∷ 7 ∷ 7 ∷ 1 ∷ []

abbrev bad_image : List ℕ
bad_image = 0xe9 ∷ 0 ∷ 6 ∷ 6 ∷ 1 ∷ []

image_accepted : (update env_ok layout (image ∷ (1 ∷ []) ∷ []) (object false)).0 ≡ 0
unfolding update write_all begin O.write O.finish
image_accepted = refl

update-Installed_example :
    Installed env_ok layout
      (image ∷ (1 ∷ []) ∷ [])
      (object false)
      (update env_ok layout (image ∷ (1 ∷ []) ∷ []) (object false)).1
update-Installed_example =
    update-Installed env_ok layout (image ∷ (1 ∷ []) ∷ []) (object false) image_accepted

bad_image_not_acceptable :
    acceptable env_ok layout bad_image (begin env_ok (object false)).1 ≡ false
unfolding begin
bad_image_not_acceptable = refl

update-rejected_example :
    ((update env_ok layout (bad_image ∷ (1 ∷ []) ∷ []) (object false)).0 ≢ 0)
    × (flashed (update env_ok layout (bad_image ∷ (1 ∷ []) ∷ []) (object false)).1.log ≡ [])
update-rejected_example =
    update-rejected env_ok layout bad_image ((1 ∷ []) ∷ []) (object false) refl
      bad_image_not_acceptable
