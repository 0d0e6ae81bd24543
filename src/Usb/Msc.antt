-- ===== src/Usb/Msc.antt =====
-- components/usb-host-comp/msc/usb_msc.cpp and host/usb_device.cpp: the host's side of a mass
-- storage device. The transfers run in the background: their completion calls `transfer_done`, and
-- the history holds what was submitted, freed and copied.
pub mod Steps
pub mod Commands
pub mod Enumeration
pub mod Faults
pub mod TooMany
pub mod Transfers
pub mod Construct
mod Tests
use esp32sx_c_plus_wrappers.Base.{
  ℕ, ◌+◌, ◌*◌, ◌%◌, ◌^◌, List, [], ◌∷◌, ◌==◌, if◌then◌else◌, ltb, leb, Bool, true, false, ◌&&◌,
  ◌||◌, not, set, get_or, take, length,
}
use esp32sx_c_plus_wrappers.Base.Bytes.{read_le16, read_le32, bswap32}
use esp32sx_c_plus_wrappers.Driver.{Env, World, M, pure, ask, tell, gets, modify, ◌>>=◌, ◌>>◌}
use esp32sx_c_plus_wrappers.Usb.Wire.{ScsiCmd10, bare_cmd, init_cbw, cbw_bytes}

-- The values that `event` takes: the SCSI command under way, -1 (`idle`) or 2 (`resetting`).
pub data Event : Type 0 where
  idle max_lun resetting inquiry read_capacity read_10 write_10 : Event

abbrev pub opcode : Event → ℕ
opcode idle = 0xff
opcode max_lun = 0x01
opcode resetting = 0x02
opcode inquiry = 0x12
opcode read_capacity = 0x25
opcode read_10 = 0x28
opcode write_10 = 0x2a

-- The user's callbacks in `msc_transfer_cb_t` that the code calls, and `event_cb`.
pub data Hook : Type 0 where
  cbw_cb data_cb csw_cb capacity_cb inquiry_cb max_luns_cb event_cb : Hook

-- `usb_transfer_t` as the completion callback finds it.
pub record Transfer : Type 0 where
  pub handle : ℕ
  pub actual_num_bytes : ℕ
  pub data_buffer : List ℕ

-- The class's fields, those of `USBhostDevice` among them. A pointer is a number, 0 for NULL. The
-- flag `fault` is set by what C++ leaves undefined, a null pointer's use or an index out of range:
-- nothing is said of the object after that.
pub record Msc : Type 0 where
  pub itf_num : ℕ
  pub xfer_ctrl : ℕ
  pub ep_in : ℕ
  pub ep_out : ℕ
  pub temp_buffer : ℕ
  pub task_to_notify : Bool
  pub block_count : List ℕ
  pub block_size : List ℕ
  pub luns : ℕ
  pub lun : ℕ
  pub event : Event
  pub hooks : Hook → Bool
  pub fault : Bool

pub data Call : Type 0 where
  transfer_alloc : ℕ → Call
  transfer_free : ℕ → Call
  -- handle, endpoint, `num_bytes`, what the code has written to the buffer
  submit : ℕ → ℕ → ℕ → List ℕ → Call
  -- handle, `num_bytes`, the setup packet
  submit_control : ℕ → ℕ → List ℕ → Call
  -- memcpy to the caller's buffer
  copy_out : ℕ → List ℕ → Call
  notify : Call
  notify_wait : ℕ → Call
  delay : Call
  user : Hook → Event → Call

abbrev pub MscM : Type 0 → Type 0
MscM A = M Msc Call A

abbrev pub err_no_mem : ℕ
err_no_mem = 0x101

-- The arrays `block_count` and `block_size` have four places.
abbrev pub max_units : ℕ
max_units = 4

-- An access to a place of the arrays, or through a pointer.
abbrev pub check : Bool → MscM (Unit {0})
check fine = modify (λ o. record o { fault = o.fault || not fine })

-- The six last bytes of a CBW are those of the freshly allocated buffer, which is zeroed.
abbrev pub padding : List ℕ
padding = 0 ∷ 0 ∷ 0 ∷ 0 ∷ 0 ∷ 0 ∷ []

module _ (env : Env Call) where
  -- `USBhostDevice::allocate` and `deallocate`.
  abbrev pub allocate : ℕ → MscM ℕ
  allocate size = ask env (transfer_alloc size)

  abbrev pub deallocate : ℕ → MscM ℕ
  deallocate handle = ask env (transfer_free handle)

  pub run_hook : Hook → MscM (Unit {0})
  run_hook h w =
      if w.dev.hooks h then (tt, record w { log = user h w.dev.event ∷ w.log }) else (tt, w)

  -- `_csw`: a transfer from the device, for data or a status. One that cannot be allocated or
  -- submitted is dropped.
  pub csw : MscM (Unit {0})
  csw = do
    size ← gets (λ o. get_or o.block_size 0 0)
    t ← allocate size
    ep ← gets (λ o. o.ep_in)
    if t == 0 then pure tt else (do
      err ← ask env (submit t ep size [])
      if err == 0 then pure tt else tell env (transfer_free t))

  -- A command sent on the bulk endpoint, in a transfer that is used unchecked, and its status read.
  pub send_command : ℕ → ScsiCmd10 → ℕ → MscM (Unit {0})
  unfolding csw init_cbw cbw_bytes
  send_command lun cmd len = do
    t ← allocate 64
    check (not (t == 0))
    ep ← gets (λ o. o.ep_out)
    check (not (ep == 0))
    tell env (submit t ep 31 (cbw_bytes (init_cbw padding true lun 0x1234 cmd len)))
    csw

  -- `_getCapacity`
  pub get_capacity : ℕ → MscM (Unit {0})
  unfolding send_command
  get_capacity lun = do
    modify (λ o. record o { lun = lun; event = read_capacity })
    send_command lun (bare_cmd (opcode read_capacity)) 8

  -- `_inquiry`: byte 4 of the command, `lba_1`, is the length of the answer.
  pub inquire : MscM (Unit {0})
  unfolding send_command
  inquire = do
    modify (λ o. record o { event = inquiry })
    send_command 0 (record (bare_cmd (opcode inquiry)) { lba_1 = 36 }) 36

  -- `_setCapacity`
  pub set_capacity : ℕ → ℕ → MscM (Unit {0})
  unfolding csw
  set_capacity count size = do
    lun ← gets (λ o. o.lun)
    check (ltb lun max_units)
    modify (λ o. record o {
      block_count = set o.block_count lun count;
      block_size = set o.block_size lun size;
    })
    csw

  notify_task : MscM (Unit {0})
  notify_task = do
    waiting ← gets (λ o. o.task_to_notify)
    if waiting then tell env notify else pure tt

  -- The cases of `_emitEvent`. `event_cb` is called after the next command has been sent, and is
  -- given the event of that command.
  pub emit_event : Event → Transfer → MscM (Unit {0})
  unfolding get_capacity inquire run_hook notify_task
  emit_event max_lun t = do
    modify (λ o. record o { luns = get_or t.data_buffer 8 0; lun = 0 })
    get_capacity 0
    run_hook max_luns_cb
    run_hook event_cb
  emit_event inquiry t = run_hook inquiry_cb
  emit_event read_capacity t = do
    o ← gets (λ o. o)
    if ltb o.lun o.luns
        then get_capacity ((o.lun + 1) % 256)
        else (do inquire; run_hook capacity_cb; run_hook event_cb)
  emit_event read_10 t = notify_task
  emit_event write_10 t = notify_task
  emit_event _ t = pure tt

  pub on_csw : Transfer → MscM (Unit {0})
  unfolding emit_event
  on_csw t = do event ← gets (λ o. o.event); emit_event event t; run_hook csw_cb

  pub on_cbw : Transfer → MscM (Unit {0})
  unfolding run_hook
  on_cbw t = run_hook cbw_cb

  -- The cases of `onData` before its callbacks. A block is copied, whether the transfer holds one or
  -- not.
  pub take_data : Event → Transfer → MscM (Unit {0})
  unfolding csw set_capacity
  take_data inquiry t = csw
  take_data read_10 t = do
    o ← gets (λ o. o)
    check (ltb o.lun max_units)
    check (leb (get_or o.block_size o.lun 0) (length t.data_buffer))
    tell env (copy_out o.temp_buffer (take (get_or o.block_size o.lun 0) t.data_buffer))
    csw
  take_data read_capacity t =
      set_capacity (bswap32 (read_le32 t.data_buffer 0)) (bswap32 (read_le32 t.data_buffer 4))
  take_data _ t = pure tt

  pub on_data : Transfer → MscM (Unit {0})
  unfolding take_data run_hook
  on_data t = do event ← gets (λ o. o.event); take_data event t; run_hook data_cb; run_hook event_cb

  -- `usb_transfer_cb`: what a completed transfer carries is told from its length and signature.
  pub transfer_done : Transfer → MscM (Unit {0})
  unfolding on_csw on_cbw on_data
  transfer_done t = do
    if t.actual_num_bytes == 9 && read_le16 t.data_buffer == 0xfea1
        then on_csw t
        else if t.actual_num_bytes == 31 && read_le32 t.data_buffer 0 == 0x43425355
        then on_cbw t
        else if t.actual_num_bytes == 13 && read_le32 t.data_buffer 0 == 0x53425355
        then on_csw t
        else on_data t
    tell env (transfer_free t.handle)
