-- ===== src/Usb/Disk/Table.antt =====
-- The table of drives: mounting, looking up and unmounting a unit.
use esp32sx_c_plus_wrappers.Base.{
  ℕ, zero, suc, ◌+◌, ◌<◌, ◌≤◌, List, [], ◌∷◌, true, false, ◌≡◌, refl, ap, ◌∙◌, arith, length,
  get_or, get_elem?, set, none, some, set-set,
}
use esp32sx_c_plus_wrappers.Driver.{Env, World}
use esp32sx_c_plus_wrappers.Usb.Disk.{
  Disk, Call, get_drive, unregister_drive, vfs_unregister, f_unmount, initial, find_from,
  get_drive_path, mount, rawmsc_unmount,
}

-- A place that is filled with a unit that stands nowhere else is the one that is found.
find_from-set :
    (i k : ℕ) (hs : List ℕ) (lun : ℕ)
    → find_from i hs lun ≡ none
    → k < length hs
    → find_from i (set hs k lun) lun ≡ some (i + k)
unfolding find_from
find_from-set i k [] lun e h = absurd (omega arith)
find_from-set i zero (x ∷ hs) lun e h = ground arith
find_from-set i (suc k) (x ∷ hs) lun e h = ground (arith, find_from-set (i + 1) k hs lun)

mount_ok :
    (env : Env Call) (lun : ℕ) (w : World Disk Call)
    → (mount env lun w).0 ≡ true
    → let pdrv = get_or (env.bytes w.log get_drive) 0 0xff in
      (pdrv < length w.dev.handles) × ((mount env lun w).1.dev.handles ≡ set w.dev.handles pdrv lun)
unfolding mount
mount_ok env lun w ok = ground arith

unmount_found :
    (env : Env Call) (lun k : ℕ) (w : World Disk Call)
    → find_from 0 w.dev.handles lun ≡ some k
    → let v = (rawmsc_unmount env lun w).1 in
      (v.dev.handles ≡ set w.dev.handles k 0xff)
      × (v.log ≡ unregister_drive k ∷ f_unmount k ∷ vfs_unregister ∷ w.log)
unfolding rawmsc_unmount
unmount_found env lun k w e = ground arith

path_found :
    (handles : List ℕ) (lun k : ℕ)
    → find_from 0 handles lun ≡ some k
    → k < 128
    → get_drive_path handles lun ≡ some k
unfolding get_drive_path
path_found handles lun k e h = ground arith

-- A unit that is mounted is found at its drive, and unmounting it frees that drive again, with the
-- drive's file system unmounted and its driver unregistered. It holds of a unit in no other place
-- of the table, with a table of at most 128 places.
pub mount-unmount :
    (env : Env Call) (lun : ℕ) (w : World Disk Call)
    → let pdrv = get_or (env.bytes w.log get_drive) 0 0xff in
      let w' = (mount env lun w).1 in
      let v = (rawmsc_unmount env lun w').1 in
      length w.dev.handles ≤ 128
      → find_from 0 w.dev.handles lun ≡ none
      → (mount env lun w).0 ≡ true
      → (get_drive_path w'.dev.handles lun ≡ some pdrv)
        × (v.dev.handles ≡ set w.dev.handles pdrv 0xff)
        × (v.log ≡ unregister_drive pdrv ∷ f_unmount pdrv ∷ vfs_unregister ∷ w'.log)
mount-unmount env lun w small unused ok =
    let pdrv = get_or (env.bytes w.log get_drive) 0 0xff in
    let w' = (mount env lun w).1 in
    let (inside, table) = mount_ok env lun w ok in
    let found : find_from 0 w'.dev.handles lun ≡ some pdrv =
      rw table (find_from-set 0 pdrv w.dev.handles lun unused inside ∙ ap some (omega arith)) in
    let (erased, calls) = unmount_found env lun pdrv w' found in
    (
      path_found w'.dev.handles lun pdrv found (omega arith),
      erased ∙ rw table (set-set w.dev.handles pdrv lun 0xff),
      calls,
    )

-- A mount that fails after the drive was registered unregisters the drive and leaves the unit in the
-- table.
pub failed_mount_stays :
    (env : Env Call) (lun : ℕ) (w : World Disk Call)
    → let pdrv = get_or (env.bytes w.log get_drive) 0 0xff in
      lun ≤ w.dev.luns
      → env.code w.log get_drive ≡ 0
      → pdrv < length w.dev.handles
      → (mount env lun w).0 ≡ false
      → ((mount env lun w).1.dev.handles ≡ set w.dev.handles pdrv lun)
        × (get_elem? (mount env lun w).1.log 0 ≡ some (unregister_drive pdrv))
unfolding mount
failed_mount_stays env lun w l free h failed = ground arith

-- Before anything is mounted, unit 0 is found at drive 1 if there are two drives or more.
pub initial_unit_zero : (n : ℕ) → get_drive_path (initial (suc (suc n))) 0 ≡ some 1
unfolding get_drive_path initial
initial_unit_zero n = refl
