-- ===== src/Usb/Disk/Sectors.antt =====
-- The FatFs driver of components/usb-host-comp/msc/vfs/diskio_rawmsc.cpp: reads, writes and questions
-- of a drive become those of the unit that the table of drives has for it. FatFs asks registered
-- drives only, whose places are in the table.
use esp32sx_c_plus_wrappers.Base.{
  ℕ, zero, suc, ◌+◌, ◌-◌, ◌≤◌, length, ◌*◌, ◌%◌, ◌^◌, ◌<◌, List, [], ◌∷◌, ◌++◌, map, ◌==◌,
  if◌then◌else◌, false, ◌≡◌, ◌≢◌, refl, ap, ◌∙◌, arith, Option, none, some, get_or, get_elem?, take,
}
use esp32sx_c_plus_wrappers.Driver.{Env, World, pure, ◌>>=◌}
use esp32sx_c_plus_wrappers.Usb.Wire.Device.{decode}
use esp32sx_c_plus_wrappers.Usb.Msc.{Msc, MscM, Call, max_lun}
use esp32sx_c_plus_wrappers.Usb.Msc.Steps.{Allocates, Sound}
use esp32sx_c_plus_wrappers.Usb.Msc.Enumeration.Whole.{enumeration_complete}
use esp32sx_c_plus_wrappers.Usb.Msc.Enumeration.{
  Unit32, Fits, Enumerated, complete, answers, max_lun_data,
}
use esp32sx_c_plus_wrappers.Usb.Msc.Transfers.{read10, write10, get_block_count, get_block_size}
use esp32sx_c_plus_wrappers.Usb.Msc.Transfers.Write.{sent, write10_request}

-- The questions that the switch knows, and all others.
pub data Ioctl : Type 0 where
  ctrl_sync get_sector_count get_sector_size get_erase_size other : Ioctl

abbrev pub res_ok : ℕ
res_ok = 0

abbrev pub res_error : ℕ
res_error = 1

-- The first argument is `ff_raw_handles`.
module _ (env : Env Call) (handles : List ℕ) where
  -- `none` means that the fuel of `_read10` ran out.
  unfoldable pub raw_read : ℕ → ℕ → ℕ → ℕ → ℕ → MscM (Option ℕ)
  raw_read fuel pdrv sector count buff = do
    r ← read10 env fuel (get_or handles pdrv 0) sector count buff
    elim r [ none ↦ pure none | some err ↦ pure (some (if err == 0 then res_ok else res_error)) ]

  unfoldable pub raw_write : ℕ → ℕ → ℕ → List ℕ → MscM ℕ
  raw_write pdrv sector count bytes = do
    err ← write10 env (get_or handles pdrv 0) sector count bytes
    pure (if err == 0 then res_ok else res_error)

  -- The result, and the value that is stored in the caller's buffer.
  pub raw_ioctl : ℕ → Ioctl → MscM (ℕ × Option ℕ)
  raw_ioctl pdrv ctrl_sync = pure (res_ok, none)
  raw_ioctl pdrv get_sector_count = do
    n ← get_block_count env (get_or handles pdrv 0)
    pure (res_ok, some n)
  raw_ioctl pdrv get_sector_size = do
    n ← get_block_size env (get_or handles pdrv 0)
    pure (res_ok, some n)
  raw_ioctl pdrv _ = pure (res_error, none)

  raw_write_ok :
      (pdrv sector count : ℕ) (bytes : List ℕ) (w : World Msc Call)
      → (raw_write pdrv sector count bytes w).0 ≡ res_ok
      → ((write10 env (get_or handles pdrv 0) sector count bytes w).0 ≡ 0)
        × ((raw_write pdrv sector count bytes w).1
            ≡ (write10 env (get_or handles pdrv 0) sector count bytes w).1)
  unfolding raw_write
  raw_write_ok pdrv sector count bytes w ok = (ground arith, refl)

  -- A write of FatFs to a drive that returns RES_OK has sent to the device a command in which the
  -- device reads the unit that the table has for the drive, the sector, the count and the length, and
  -- then so many bytes of the caller's buffer. It is so when that unit's block size is that of the
  -- unit handled last, and the numbers fit their fields.
  pub raw_write_request :
      (pdrv sector count : ℕ) (bytes : List ℕ) (w : World Msc Call)
      → w.dev.ep_in ≢ w.dev.ep_out
      → sector < 2 ^ 32
      → count < 2 ^ 16
      → (let lun = get_or handles pdrv 0 in
          let len = count * get_or w.dev.block_size lun 0 in
          len < 2 ^ 32
          → get_or w.dev.block_size w.dev.lun 0 ≡ get_or w.dev.block_size lun 0
          → (raw_write pdrv sector count bytes w).0 ≡ res_ok
          → (cbw : List ℕ) × (sent w.dev.ep_out (raw_write pdrv sector count bytes w).1.log
              ≡ (len, take len bytes) ∷ (31, cbw) ∷ sent w.dev.ep_out w.log)
            × (decode cbw
                ≡ some (record {
                  tag = 0x1234;
                  lun = lun;
                  to_host = false;
                  opcode = 0x2a;
                  lba = sector;
                  blocks = count;
                  bytes = len;
                })))
  raw_write_request pdrv sector count bytes w ne o n l same ok =
      let (done, world) = raw_write_ok pdrv sector count bytes w ok in
      rw world (write10_request env (get_or handles pdrv 0) sector count bytes w ne o n l same done)

-- The value of the unit numbered `k` in an array that begins with those of `us`.
get_or-map :
    (f : Unit32 → ℕ) (us : List Unit32) (k : ℕ) (u : Unit32) (rest : List ℕ)
    → get_elem? us k ≡ some u
    → get_or (map f us ++ rest) k 0 ≡ f u
get_or-map f [] k u rest e = absurd (ground arith)
get_or-map f (v ∷ us) zero u rest e = ground arith
get_or-map f (v ∷ us) (suc k) u rest e = get_or-map f us k u rest e

module _ (env : Env Call) where
  sizes_told :
      (handles : List ℕ) (pdrv : ℕ) (w : World Msc Call)
      → ((raw_ioctl env handles pdrv get_sector_count w).0
          ≡ (res_ok, some (get_or w.dev.block_count (get_or handles pdrv 0) 0)))
        × ((raw_ioctl env handles pdrv get_sector_size w).0
            ≡ (res_ok, some (get_or w.dev.block_size (get_or handles pdrv 0) 0 % 2 ^ 16)))
  unfolding raw_ioctl get_block_count get_block_size
  sizes_told handles pdrv w = (refl, refl)

  raw_ioctl-Enumerated :
      (handles : List ℕ) (pdrv : ℕ) (us : List Unit32) (u : Unit32) (rc rs : List ℕ)
      (w : World Msc Call)
      → Enumerated w.dev us [] rc [] rs
      → get_elem? us (get_or handles pdrv 0) ≡ some u
      → ((raw_ioctl env handles pdrv get_sector_count w).0 ≡ (res_ok, some u.last_block))
        × ((raw_ioctl env handles pdrv get_sector_size w).0 ≡ (res_ok, some (u.size % 2 ^ 16)))
  raw_ioctl-Enumerated handles pdrv us u rc rs w d e =
      let lun = get_or handles pdrv 0 in
      let (told_count, told_size) = sizes_told handles pdrv w in
      let count : get_or w.dev.block_count lun 0 ≡ u.last_block =
        ap (λ xs. get_or xs lun 0) d.counts ∙ get_or-map (λ u. u.last_block) us lun u _ e in
      let size : get_or w.dev.block_size lun 0 ≡ u.size =
        ap (λ xs. get_or xs lun 0) d.sizes ∙ get_or-map (λ u. u.size) us lun u _ e in
      (
        told_count ∙ ap (λ n. (res_ok, some n)) count,
        told_size ∙ ap (λ n. (res_ok, some (n % 2 ^ 16))) size,
      )

-- A unit's sectors: its blocks are numbered from 0.
abbrev pub sectors : Unit32 → ℕ
sectors u = u.last_block + 1

-- When the answers of the device's units, at most four, have been taken in one after the other, each
-- transfer allocated, FatFs is told for a drive one sector fewer than the drive's unit has, and the
-- low 16 bits of their size. It is so of a sound object, whose arrays have four places and whose
-- outward endpoint is known.
pub raw_ioctl-sectors :
    (env : Env Call) (handles : List ℕ) (pdrv : ℕ) (us : List Unit32) (u : Unit32)
    (w : World Msc Call)
    → Allocates env
    → Fits us
    → 0 < length us
    → length us ≤ 4
    → length w.dev.block_count ≡ 4
    → length w.dev.block_size ≡ 4
    → Sound w.dev
    → w.dev.event ≡ max_lun
    → get_elem? us (get_or handles pdrv 0) ≡ some u
    → (let w' = complete env (max_lun_data (length us - 1) ∷ answers env 0 us) w in
        ((raw_ioctl env handles pdrv get_sector_count w').0 ≡ (res_ok, some (sectors u - 1)))
        × ((raw_ioctl env handles pdrv get_sector_size w').0 ≡ (res_ok, some (u.size % 2 ^ 16))))
raw_ioctl-sectors env handles pdrv us u w room f some_units few c s sound e at =
    let w' = complete env (max_lun_data (length us - 1) ∷ answers env 0 us) w in
    let (asked, _) = enumeration_complete env us w room f some_units few c s sound e in
    let (count, size) =
      raw_ioctl-Enumerated env handles pdrv us u w.dev.block_count w.dev.block_size w' asked at in
    let less : u.last_block ≡ sectors u - 1 = omega arith in
    (count ∙ ap (λ n. (res_ok, some n)) less, size)
