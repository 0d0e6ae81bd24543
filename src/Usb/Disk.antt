-- ===== src/Usb/Disk.antt =====
-- components/usb-host-comp/msc/vfs/diskio_rawmsc.cpp: the FatFs disk layer over a mass storage
-- device, with `mount`, `unmount` and `getDrivePath` of msc/usb_msc.cpp. The table `ff_raw_handles`
-- has FF_VOLUMES places, a number of the FatFs configuration: it is the length of the list.
pub mod Table
pub mod Sectors
use esp32sx_c_plus_wrappers.Base.{
  ℕ, zero, suc, ◌+◌, ◌%◌, List, [], ◌∷◌, ◌==◌, if◌then◌else◌, ltb, leb, Bool, true, false, length,
  get_or, set, replicate, Option, none, some, ◌||◌,
}
use esp32sx_c_plus_wrappers.Driver.{Env, World, M, pure, ask, tell, gets, modify, ◌>>=◌, ◌>>◌}

-- What the functions share: the table, and the highest unit number of the device. The flag `fault`
-- is set by an access out of range.
pub record Disk : Type 0 where
  pub handles : List ℕ
  pub luns : ℕ
  pub fault : Bool

pub data Call : Type 0 where
  get_drive : Call
  register_drive : ℕ → Call
  unregister_drive : ℕ → Call
  vfs_register : ℕ → Call
  vfs_unregister : Call
  f_mount : ℕ → Call
  f_unmount : ℕ → Call

abbrev pub DiskM : Type 0 → Type 0
DiskM A = M Disk Call A

abbrev pub err_fail : ℕ
err_fail = 0xffff_ffff

abbrev pub err_no_mem : ℕ
err_no_mem = 0x101

abbrev pub err_invalid_arg : ℕ
err_invalid_arg = 0x102

abbrev pub err_invalid_state : ℕ
err_invalid_state = 0x103

-- `uint8_t ff_raw_handles[FF_VOLUMES] = {0xff}`: the places after the first are 0.
pub initial : ℕ → List ℕ
initial zero = []
initial (suc n) = 0xff ∷ replicate n 0

-- The loop that both functions below run: the first place from `i` on that holds `lun`.
unfoldable pub find_from : ℕ → List ℕ → ℕ → Option ℕ
find_from i [] lun = none
find_from i (h ∷ hs) lun = let rest = find_from (i + 1) hs lun in if h == lun then some i else rest

-- `ff_msc_get_pdrv_raw`: -1 is returned as a `BYTE`.
pub get_pdrv : List ℕ → ℕ → ℕ
unfolding find_from
get_pdrv handles lun = elim (find_from 0 handles lun) [ none ↦ 255 | some i ↦ i % 256 ]

-- `getDrivePath`: the number that is printed, if the `int8_t` is not negative.
pub get_drive_path : List ℕ → ℕ → Option ℕ
unfolding get_pdrv
get_drive_path handles lun =
    let vol = get_pdrv handles lun in if ltb vol 128 then some vol else none

module _ (env : Env Call) where
  -- `ff_msc_register_raw_partition`
  pub register_partition : ℕ → ℕ → DiskM ℕ
  register_partition pdrv lun = do
    volumes ← gets (λ d. length d.handles)
    if leb volumes pdrv then pure err_invalid_arg else (do
      tell env (register_drive pdrv)
      modify (λ d. record d { handles = set d.handles pdrv lun })
      pure 0)

  abbrev fail : ℕ → ℕ → DiskM ℕ
  fail pdrv result = do tell env vfs_unregister; tell env (unregister_drive pdrv); pure result

  -- `vfs_fat_rawmsc_mount`. The drive that `ff_diskio_get_drive` finds is its answer's first byte.
  pub rawmsc_mount : ℕ → DiskM ℕ
  unfolding register_partition
  rawmsc_mount lun w =
      let pdrv = get_or (env.bytes w.log get_drive) 0 0xff in
      (do
        luns ← gets (λ d. d.luns)
        if ltb luns lun then pure err_invalid_state else (do
          none_free ← ask env get_drive
          if none_free == 0
              then (do
                result ← register_partition pdrv lun
                if result == 0
                    then (do
                      registered ← ask env (vfs_register pdrv)
                      if registered == 0 || registered == err_invalid_state
                          then (do
                            fresult ← ask env (f_mount pdrv)
                            if fresult == 0 then pure 0 else fail pdrv err_fail)
                          else fail pdrv registered)
                    else fail pdrv result)
              else pure err_no_mem))
        w

  -- `USBmscDevice::mount`, which reads `block_size[lun]`, of four places.
  unfoldable pub mount : ℕ → DiskM Bool
  unfolding rawmsc_mount
  mount lun = do
    luns ← gets (λ d. d.luns)
    if ltb luns lun then pure false else (do
      modify (λ d. record d { fault = d.fault || leb 4 lun })
      err ← rawmsc_mount lun
      pure (err == 0))

  -- `vfs_fat_rawmsc_unmount`
  pub rawmsc_unmount : ℕ → DiskM (Unit {0})
  unfolding find_from
  rawmsc_unmount lun = do
    found ← gets (λ d. find_from 0 d.handles lun)
    elim found [
      | none ↦ pure tt
      | some i ↦ (do
        modify (λ d. record d { handles = set d.handles i 0xff })
        tell env vfs_unregister
        tell env (f_unmount i)
        tell env (unregister_drive i))
    ]
