-- ===== src/Usb/Msc/Tests.antt =====
-- A concrete device for the constructor of components/usb-host-comp/msc/usb_msc.cpp.
use esp32sx_c_plus_wrappers.Base.{[], ◌∷◌, ◌++◌, none, false, ◌≡◌, inr, refl, arith}
use esp32sx_c_plus_wrappers.Usb.Descriptors.{Endpoint, Interface}
use esp32sx_c_plus_wrappers.Usb.Msc.Construct.{Found, construct, made_for, construct-storage}

abbrev ep_in : Endpoint
ep_in = record { address = 0x81; max_packet = 64 }

abbrev ep_out : Endpoint
ep_out = record { address = 0x02; max_packet = 64 }

abbrev keyboard : Interface
keyboard = record { class_code = 0x03; num_endpoints = 1; endpoints = ep_in ∷ [] }

abbrev storage : Interface
storage = record { class_code = 0x08; num_endpoints = 2; endpoints = ep_out ∷ ep_in ∷ [] }

abbrev blank : Found
blank = record {
  ep_in = none;
  ep_out = none;
  itf_num = 0;
  claimed = [];
  is_instance = false;
  fault = false;
}

construct-storage_example :
    construct ((keyboard ∷ []) ++ (storage ∷ keyboard ∷ [])) blank ≡ made_for 1 ep_in ep_out blank
construct-storage_example =
    construct-storage (keyboard ∷ []) (keyboard ∷ []) storage ep_in ep_out blank (omega arith, tt)
      (omega arith, tt)
      (record {
        class_ok = refl;
        count_ok = refl;
        to_host = omega arith;
        to_device = omega arith;
        order = inr refl;
      })
