-- ===== src/Usb/Acm.antt =====
-- components/usb-host-comp/acm/usb_acm.cpp: a serial port behind USB, a communication interface and
-- a data interface. Requests on the control endpoint use one transfer that `init` allocates; each
-- piece of data has a transfer of its own, which its completion frees.
pub mod Requests
pub mod Ledger
pub mod Descriptors
mod Tests
use esp32sx_c_plus_wrappers.Base.{
  ℕ, zero, suc, ◌+◌, ◌*◌, List, [], ◌∷◌, ◌++◌, ◌==◌, if◌then◌else◌, leb, Bool, true, false, ◌&&◌,
  ◌||◌, not, Option, none, some, length, take, get_or, get_elem?,
}
use esp32sx_c_plus_wrappers.Base.Bytes.{le32}
use esp32sx_c_plus_wrappers.Driver.{Env, World, M, pure, ask, tell, gets, modify, ◌>>=◌, ◌>>◌}
use esp32sx_c_plus_wrappers.Usb.Wire.{Setup, setup_bytes}
use esp32sx_c_plus_wrappers.Usb.Descriptors.{Endpoint, Interface, is_in}
use esp32sx_c_plus_wrappers.Usb.Msc.{Transfer}

-- A pointer is a number, or an option where something is read behind it. `ctrl_size` is the size of
-- the buffer of `xfer_ctrl`. The flag `fault` is set by what C++ leaves undefined: the use of a null
-- pointer, or an access past a buffer's end.
pub record Acm : Type 0 where
  pub xfer_ctrl : ℕ
  pub ctrl_size : ℕ
  pub itf_num : ℕ
  pub ep_int : Option Endpoint
  pub ep_in : Option Endpoint
  pub ep_out : Option Endpoint
  pub connected : Bool
  pub has_event_cb : Bool
  pub fault : Bool

-- CDC_DATA_IN and the others.
pub data Event : Type 0 where
  data_in data_out set_control_line_state set_line_coding get_line_coding : Event

pub data Call : Type 0 where
  transfer_alloc : ℕ → Call
  transfer_free : ℕ → Call
  -- handle, endpoint, `num_bytes`, what the code has written to the buffer
  submit : ℕ → ℕ → ℕ → List ℕ → Call
  -- handle, `num_bytes`, what the code has written to the buffer
  submit_control : ℕ → ℕ → List ℕ → Call
  claim : ℕ → Call
  user : Event → List ℕ → ℕ → Call

abbrev pub AcmM : Type 0 → Type 0
AcmM A = M Acm Call A

abbrev pub check : Bool → AcmM (Unit {0})
check fine = modify (λ o. record o { fault = o.fault || not fine })

abbrev pub to_bit : Bool → ℕ
to_bit true = 1
to_bit false = 0

abbrev pub address_of : Option Endpoint → ℕ
address_of none = 0
address_of (some e) = e.address

abbrev pub packet_of : Option Endpoint → ℕ
packet_of none = 0
packet_of (some e) = e.max_packet

abbrev pub is_some : Option Endpoint → Bool
is_some none = false
is_some (some e) = true

-- USB_CTRL_REQ_CDC_SET_LINE_CODING, USB_CTRL_REQ_CDC_GET_LINE_CODING and
-- USB_CTRL_REQ_CDC_SET_CONTROL_LINE_STATE, for the interface 0.
abbrev pub req_set_line_coding : Setup
req_set_line_coding = record {
  request_type = 0x21;
  request = 0x20;
  value = 0;
  index = 0;
  length = 7;
}

abbrev pub req_get_line_coding : Setup
req_get_line_coding = record {
  request_type = 0xa1;
  request = 0x21;
  value = 0;
  index = 0;
  length = 7;
}

abbrev pub req_set_control_line_state : Bool → Bool → Setup
req_set_control_line_state dtr rts = record {
  request_type = 0x21;
  request = 0x22;
  value = to_bit dtr + 2 * to_bit rts;
  index = 0;
  length = 0;
}

-- `line_coding_t`, which is not packed: seven bytes, and one of padding.
abbrev pub line_coding_bytes : ℕ → ℕ → ℕ → ℕ → List ℕ
line_coding_bytes bitrate cf parity bits = le32 bitrate ++ (cf ∷ parity ∷ bits ∷ 0 ∷ [])

-- `round_up` is `usb_round_up_to_mps` of esp-idf.
module _ (env : Env Call) (round_up : ℕ → ℕ → ℕ) where
  -- The constructor's loop over the interfaces; its result says whether the loop goes on.
  pub see_endpoint : Option Endpoint → AcmM (Unit {0})
  see_endpoint none = check false
  see_endpoint (some e) =
      modify (λ o. if is_in e then record o { ep_in = some e } else record o { ep_out = some e })

  pub see_interface : Interface → ℕ → AcmM Bool
  unfolding see_endpoint
  see_interface i n =
      if i.class_code == 0x02
      then (if i.num_endpoints == 1
          then (do
            modify (λ o. record o { ep_int = get_elem? i.endpoints 0 })
            tell env (claim n)
            modify (λ o. record o { itf_num = 0 })
            pure true)
          else pure false)
      else if i.class_code == 0x0a
      then (if i.num_endpoints == 2
          then (do
            see_endpoint (get_elem? i.endpoints 0)
            see_endpoint (get_elem? i.endpoints 1)
            tell env (claim n)
            pure true)
          else pure false)
      else pure true

  pub construct_from : ℕ → List Interface → AcmM (Unit {0})
  construct_from n [] w = (tt, w)
  construct_from n (i ∷ rest) w =
      let (more, w') = see_interface i n w in
      let later = construct_from (n + 1) rest w' in if more then later else (tt, w')

  pub construct : List Interface → AcmM (Unit {0})
  construct interfaces = construct_from 0 interfaces

  -- `USBhostDevice::init` with the size of the control endpoint's packets.
  pub init : ℕ → AcmM (Unit {0})
  init max_packet = do
    t ← ask env (transfer_alloc max_packet)
    modify (λ o. if t == 0 then o else record o { xfer_ctrl = t; ctrl_size = max_packet })
    o ← gets (λ o. o)
    check (not (o.xfer_ctrl == 0))

  unfoldable pub destroy : AcmM (Unit {0})
  destroy = do o ← gets (λ o. o); tell env (transfer_free o.xfer_ctrl)

  -- A request: `bytes` are written to the control transfer's buffer, `num` are submitted.
  pub request : ℕ → List ℕ → AcmM (Unit {0})
  request num bytes = do
    o ← gets (λ o. o)
    check (not (o.xfer_ctrl == 0) && leb (length bytes) o.ctrl_size)
    tell env (submit_control o.xfer_ctrl num bytes)

  pub set_control_line : Bool → Bool → AcmM (Unit {0})
  unfolding request
  set_control_line dtr rts = request 8 (setup_bytes (req_set_control_line_state dtr rts))

  -- `memcpy` copies the eight bytes of `line_coding_t` behind the setup packet; seven are sent.
  pub send_line_coding : ℕ → ℕ → ℕ → ℕ → AcmM (Unit {0})
  unfolding request
  send_line_coding bitrate cf parity bits =
      request 15 (setup_bytes req_set_line_coding ++ line_coding_bytes bitrate cf parity bits)

  pub ask_line_coding : AcmM (Unit {0})
  unfolding request
  ask_line_coding = request 15 (setup_bytes req_get_line_coding)

  -- `INDATA`: the length is rounded up to the packets of the other direction's endpoint.
  pub in_data : ℕ → AcmM (Unit {0})
  in_data len = do
    o ← gets (λ o. o)
    if not o.connected then pure tt else (do
      check (is_some o.ep_out)
      t ← ask env (transfer_alloc (round_up len (packet_of o.ep_out)))
      check (not (t == 0) && is_some o.ep_in)
      tell env (submit t (address_of o.ep_in) (round_up len (packet_of o.ep_out)) []))

  -- `OUTDATA`: the transfer has 64 bytes, whatever the length.
  pub out_data : List ℕ → AcmM (Unit {0})
  out_data bytes = do
    o ← gets (λ o. o)
    if not o.connected || length bytes == 0 then pure tt else (do
      t ← ask env (transfer_alloc 64)
      check (not (t == 0) && is_some o.ep_out)
      check (leb (length bytes) 64)
      tell env (submit t (address_of o.ep_out) (length bytes) bytes))

  -- `_callback`: only a request's completion connects.
  pub callback : Event → Transfer → AcmM (Unit {0})
  callback event t = do
    modify (λ o. elim event [ data_in ↦ o | data_out ↦ o | _ ↦ record o { connected = true } ])
    o ← gets (λ o. o)
    if o.has_event_cb then tell env (user event t.data_buffer t.actual_num_bytes) else pure tt

  -- `usb_ctrl_cb`: which request has completed is read from the setup packet.
  pub ctrl_done : Transfer → AcmM (Unit {0})
  unfolding callback
  ctrl_done t =
      if get_or t.data_buffer 0 0 == 0x21 && get_or t.data_buffer 1 0 == 0x20
      then callback set_line_coding t
      else if get_or t.data_buffer 0 0 == 0xa1 && get_or t.data_buffer 1 0 == 0x21
      then callback get_line_coding t
      else if get_or t.data_buffer 0 0 == 0x21 && get_or t.data_buffer 1 0 == 0x22
      then callback set_control_line_state t
      else pure tt

  -- `usb_read_cb` and `usb_write_cb`.
  pub read_done : Transfer → AcmM (Unit {0})
  unfolding callback
  read_done t = do callback data_in t; tell env (transfer_free t.handle)

  pub write_done : Transfer → AcmM (Unit {0})
  unfolding callback
  write_done t = do callback data_out t; tell env (transfer_free t.handle)
