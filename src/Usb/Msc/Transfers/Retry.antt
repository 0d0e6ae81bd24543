-- ===== src/Usb/Msc/Transfers/Retry.antt =====
-- `_read10` of components/usb-host-comp/msc/usb_msc.cpp tries again while the endpoint is busy.
use esp32sx_c_plus_wrappers.Base.{
  ℕ, zero, suc, ◌+◌, ◌≤◌, ◌<◌, List, [], ◌∷◌, ◌≡◌, arith, none, some, get_or, true, Option-cases,
  inl, inr,
}
use esp32sx_c_plus_wrappers.Driver.{Env, World}
use esp32sx_c_plus_wrappers.Usb.Wire.{init_cbw, cbw_bytes, rw10_cmd}
use esp32sx_c_plus_wrappers.Usb.Msc.{
  Msc, Call, submit, csw, transfer_alloc, opcode, read_10, padding,
}
use esp32sx_c_plus_wrappers.Usb.Msc.Transfers.{try_read10, read10, err_busy, mul32}

-- How many transfers have been submitted.
abbrev pub submissions : List Call → ℕ
submissions [] = 0
submissions (submit _ _ _ _ ∷ log) = suc (submissions log)
submissions (_ ∷ log) = submissions log

-- An endpoint is busy only for submissions before the one numbered `n`.
abbrev pub BusyUntil : Env Call → ℕ → Type 0
BusyUntil env n =
    (log : List Call) (t ep size : ℕ) (bytes : List ℕ)
    → env.code log (submit t ep size bytes) ≡ err_busy
    → submissions log < n

module _ (env : Env Call) where
  submissions-csw : (w : World Msc Call) → submissions w.log ≤ submissions (csw env w).1.log
  unfolding csw
  submissions-csw w = ground arith

  -- A busy attempt has submitted, and at a time when the endpoint may be busy.
  try_none :
      (n lun offset num_sectors buff : ℕ) (w : World Msc Call)
      → BusyUntil env n
      → (try_read10 env lun offset num_sectors buff w).0 ≡ none
      → (submissions w.log < n)
        × (submissions w.log < submissions (try_read10 env lun offset num_sectors buff w).1.log)
  unfolding try_read10
  try_none n lun offset num_sectors buff w busy e =
      let size = mul32 num_sectors (get_or w.dev.block_size lun 0) in
      let t = env.code w.log (transfer_alloc size) in
      let cmd = rw10_cmd (opcode read_10) offset num_sectors in
      ground (
        arith,
        busy (transfer_alloc size ∷ w.log) t w.dev.ep_out 31
            (cbw_bytes (init_cbw padding true lun 0x1234 cmd size)),
      )

  -- If the endpoint is busy only before the `n`th submission, then as many attempts as are missing
  -- up to that submission, and one more, are enough for the read to end with an answer.
  pub read10_terminates :
      (fuel n lun offset num_sectors buff : ℕ) (w : World Msc Call)
      → BusyUntil env n
      → n ≤ submissions w.log + fuel
      → (err : ℕ) × ((read10 env (suc fuel) lun offset num_sectors buff w).0 ≡ some err)
  unfolding read10
  read10_terminates zero n lun offset num_sectors buff w busy h =
      elim (Option-cases (try_read10 env lun offset num_sectors buff w).0) [
        | inr (err, e) ↦ (err, rw (e, read10))
        | inl again ↦
            absurd (omega (arith, (try_none n lun offset num_sectors buff w busy again).0))
      ]
  read10_terminates (suc fuel) n lun offset num_sectors buff w busy h =
      elim (Option-cases (try_read10 env lun offset num_sectors buff w).0) [
        | inr (err, e) ↦ (err, rw (e, read10))
        | inl again ↦
            let w' = (try_read10 env lun offset num_sectors buff w).1 in
            let (before, more) = try_none n lun offset num_sectors buff w busy again in
            let (err, found) =
              read10_terminates fuel n lun offset num_sectors buff w' busy (omega arith) in
            (err, rw (again, read10) found)
      ]
