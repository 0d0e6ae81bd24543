-- ===== src/Usb/Msc/Transfers.antt =====
-- components/usb-host-comp/msc/usb_msc.cpp: the requests of the object's user and of the disk layer.
pub mod Retry
pub mod Write
pub mod Read
use esp32sx_c_plus_wrappers.Base.{
  ℕ, zero, suc, ◌+◌, ◌-◌, ◌*◌, ◌%◌, ◌^◌, List, [], ◌==◌, if◌then◌else◌, ltb, leb, Bool, true, false,
  not, get_or, take, Option, none, some,
}
use esp32sx_c_plus_wrappers.Driver.{Env, World, pure, ask, tell, gets, modify, ◌>>=◌, ◌>>◌}
use esp32sx_c_plus_wrappers.Usb.Wire.{
  init_cbw, cbw_bytes, rw10_cmd, setup_bytes, req_init_reset, req_max_lun,
}
use esp32sx_c_plus_wrappers.Usb.Msc.{
  Msc, MscM, Call, max_lun, resetting, read_10, write_10, opcode, submit, submit_control,
  notify_wait, delay, err_no_mem, max_units, check, padding, allocate, deallocate, csw,
  transfer_alloc,
}

-- ESP_ERR_INVALID_STATE, which says that the endpoint is busy, and ESP_ERR_TIMEOUT.
abbrev pub err_busy : ℕ
err_busy = 0x103

abbrev pub err_timeout : ℕ
err_timeout = 0x107

-- The product of two `uint32_t`.
abbrev pub mul32 : ℕ → ℕ → ℕ
mul32 a b = a * b % 2 ^ 32

-- Errors are `int`s: -1 as its bit pattern.
abbrev pub err_minus_one : ℕ
err_minus_one = 2 ^ 32 - 1

module _ (env : Env Call) where
  -- `_getMaxLUN`
  abbrev ask_max_lun : MscM (Unit {0})
  ask_max_lun = do
    modify (λ o. record o { event = max_lun })
    o ← gets (λ o. o)
    check (not (o.xfer_ctrl == 0))
    tell env (submit_control o.xfer_ctrl (8 + 1) (setup_bytes (req_max_lun o.itf_num)))

  -- `USBhostDevice::init` with the size of the control endpoint, which writes through the pointer it
  -- got, then `_getMaxLUN`.
  unfoldable pub init : ℕ → MscM (Unit {0})
  init max_packet = do
    t ← ask env (transfer_alloc max_packet)
    modify (λ o. record o { xfer_ctrl = t })
    check (not (t == 0))
    ask_max_lun

  unfoldable pub reset : MscM (Unit {0})
  reset = do
    modify (λ o. record o { event = resetting })
    o ← gets (λ o. o)
    check (not (o.xfer_ctrl == 0))
    tell env (submit_control o.xfer_ctrl 8 (setup_bytes (req_init_reset o.itf_num)))

  -- The size in bytes of `n` sectors of a unit; the index is not checked.
  abbrev pub sector_bytes : ℕ → ℕ → MscM ℕ
  sector_bytes lun n = do check (ltb lun max_units); gets (λ o. mul32 n (get_or o.block_size lun 0))

  -- The wait for the notification of the status, which another task sends.
  abbrev pub wait_status : ℕ → MscM ℕ
  wait_status ms = do
    modify (λ o. record o { task_to_notify = true })
    told ← ask env (notify_wait ms)
    pure (if told == 1 then 0 else err_timeout)

  -- One attempt of `_read10`: the answer, or `none` if the endpoint was busy. The command is written
  -- into the transfer that was allocated for the data.
  pub try_read10 : ℕ → ℕ → ℕ → ℕ → MscM (Option ℕ)
  unfolding csw init_cbw cbw_bytes rw10_cmd
  try_read10 lun offset num_sectors buff = do
    modify (λ o. record o { temp_buffer = buff; event = read_10 })
    size ← sector_bytes lun num_sectors
    t ← allocate env size
    if t == 0 then pure (some err_no_mem) else (do
      check (leb 31 size)
      ep ← gets (λ o. o.ep_out)
      err ← ask env (
          submit t ep 31 (
            cbw_bytes (
              init_cbw padding true lun 0x1234 (rw10_cmd (opcode read_10) offset num_sectors)
                size)))
      csw env
      if err == err_busy
          then (do tell env delay; _ ← deallocate env t; pure none)
          else (do status ← wait_status 20; pure (some status)))

  -- `_read10` calls itself after a busy answer: the fuel bounds the attempts, and `none` means that
  -- it ran out.
  pub read10 : ℕ → ℕ → ℕ → ℕ → ℕ → MscM (Option ℕ)
  read10 zero lun offset num_sectors buff w = (none, w)
  read10 (suc fuel) lun offset num_sectors buff w =
      let (r, w') = try_read10 lun offset num_sectors buff w in
      elim r [ none ↦ read10 fuel lun offset num_sectors buff w' | some err ↦ (some err, w') ]

  -- `_write10`: the command, then the data, then the status. The length in the command and the
  -- amount of data come from the block size of `_lun`, the unit handled last, and the size of the
  -- data's transfer from that of `lun`. `data` is what the caller's buffer holds.
  unfoldable pub write10 : ℕ → ℕ → ℕ → List ℕ → MscM ℕ
  unfolding csw init_cbw cbw_bytes rw10_cmd
  write10 lun offset num_sectors bytes = do
    modify (λ o. record o { event = write_10 })
    t ← allocate env 31
    if t == 0 then pure err_no_mem else (do
      current ← gets (λ o. o.lun)
      len ← sector_bytes current num_sectors
      ep ← gets (λ o. o.ep_out)
      err ← ask env (
          submit t ep 31 (
            cbw_bytes (
              init_cbw padding false lun 0x1234 (rw10_cmd (opcode write_10) offset num_sectors)
                len)))
      if not (err == 0) then (do _ ← deallocate env t; pure err_minus_one) else (do
        size ← sector_bytes lun num_sectors
        d ← allocate env size
        if d == 0 then pure err_no_mem else (do
          check (leb len size)
          sent ← ask env (submit d ep len (take len bytes))
          if sent == 0
              then (do
                modify (λ o. record o { task_to_notify = true })
                csw env
                told ← ask env (notify_wait 50)
                pure (if told == 1 then 0 else err_timeout))
              else (do _ ← deallocate env d; csw env; pure sent))))

  -- `getMaxLUN`, `getBlockCount`, and `getBlockSize`, whose result is a `uint16_t`.
  unfoldable pub get_max_lun : MscM ℕ
  get_max_lun = gets (λ o. o.luns)

  unfoldable pub get_block_count : ℕ → MscM ℕ
  get_block_count lun = do check (ltb lun max_units); gets (λ o. get_or o.block_count lun 0)

  unfoldable pub get_block_size : ℕ → MscM ℕ
  get_block_size lun = do check (ltb lun max_units); gets (λ o. get_or o.block_size lun 0 % 2 ^ 16)
