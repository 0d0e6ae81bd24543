-- ===== src/Usb/Descriptors.antt =====
-- What the descriptor parsers of esp-idf give for a configuration: its interfaces in order, with
-- their endpoints.
use esp32sx_c_plus_wrappers.Base.{ℕ, List, Bool, leb}

-- `usb_ep_desc_t`; bit 7 of the address is set for an endpoint to the host.
pub record Endpoint : Type 0 where
  pub address : ℕ
  pub max_packet : ℕ

-- `usb_intf_desc_t` with the endpoints that the parser finds for it.
pub record Interface : Type 0 where
  pub class_code : ℕ
  pub num_endpoints : ℕ
  pub endpoints : List Endpoint

abbrev pub is_in : Endpoint → Bool
is_in e = leb 0x80 e.address
