-- ===== src/Usb/Tests.antt =====
-- Concrete devices for components/usb-host-comp.
use esp32sx_c_plus_wrappers.Base.{
  ℕ, ◌-◌, ◌%◌, ◌^◌, List, [], ◌∷◌, ◌++◌, if◌then◌else◌, true, false, ◌≡◌, refl, arith, some, none,
  take, set, ltb,
}
use esp32sx_c_plus_wrappers.Base.Int.{pos}
use esp32sx_c_plus_wrappers.Driver.{Env, World}
use esp32sx_c_plus_wrappers.Usb.Wire.{init_cbw, cbw_bytes, rw10_cmd}
use esp32sx_c_plus_wrappers.Usb.Wire.Device.{decode, decode-cbw}
use esp32sx_c_plus_wrappers.Usb.Msc as M
use esp32sx_c_plus_wrappers.Usb.Msc.{Msc, Call, Event, Hook}
use esp32sx_c_plus_wrappers.Usb.Msc.Steps.{Allocates}
use esp32sx_c_plus_wrappers.Usb.Msc.Commands.{commands, capacities, inquiry_request}
use esp32sx_c_plus_wrappers.Usb.Msc.Enumeration.Whole.{enumeration_complete}
use esp32sx_c_plus_wrappers.Usb.Msc.Enumeration.{
  Unit32, Enumerated, complete, answers, max_lun_data,
}
use esp32sx_c_plus_wrappers.Usb.Msc.Transfers.{read10, write10, err_busy}
use esp32sx_c_plus_wrappers.Usb.Msc.Transfers.Retry.{submissions, BusyUntil, read10_terminates}
use esp32sx_c_plus_wrappers.Usb.Msc.Transfers.Write.{sent, write10_request}
use esp32sx_c_plus_wrappers.Usb.Disk as D
use esp32sx_c_plus_wrappers.Usb.Disk.{Disk, mount, rawmsc_unmount, get_drive_path, find_from}
use esp32sx_c_plus_wrappers.Usb.Disk.Sectors.{
  get_sector_count, get_sector_size, raw_write, raw_ioctl, raw_write_request, raw_ioctl-sectors,
}
use esp32sx_c_plus_wrappers.Usb.Disk.Table.{mount-unmount}

decode-cbw_example :
    decode (
      cbw_bytes (init_cbw (0 ∷ 0 ∷ 0 ∷ 0 ∷ 0 ∷ 0 ∷ []) true 1 0x1234 (rw10_cmd 0x28 100000 3) 1536))
    ≡ some (record {
      tag = 0x1234;
      lun = 1;
      to_host = true;
      opcode = 0x28;
      lba = 100000;
      blocks = 3;
      bytes = 1536;
    })
decode-cbw_example =
    decode-cbw (0 ∷ 0 ∷ 0 ∷ 0 ∷ 0 ∷ 0 ∷ []) true 1 0x28 100000 3 1536 refl (omega arith)
      (omega arith) (omega arith)

-- Transfers are allocated and submitted, and the status is notified.
abbrev env_ok : Env Call
env_ok = record {
  code = λ log c. elim c [ M.transfer_alloc _ ↦ 1 | M.notify_wait _ ↦ 1 | _ ↦ 0 ];
  int = λ _ _. pos 0;
  bytes = λ _ _. [];
}

env_ok-Allocates : Allocates env_ok
env_ok-Allocates log size = omega arith

abbrev stick : Event → List ℕ → World Msc Call
stick event sizes = record {
  dev = record {
    itf_num = 0;
    xfer_ctrl = 1;
    ep_in = 0x81;
    ep_out = 0x02;
    temp_buffer = 0;
    task_to_notify = false;
    block_count = 0 ∷ 0 ∷ 0 ∷ 0 ∷ [];
    block_size = sizes;
    luns = 1;
    lun = 0;
    event = event;
    hooks = λ _. false;
    fault = false;
  };
  log = [];
}

abbrev blank : List ℕ
blank = 0 ∷ 0 ∷ 0 ∷ 0 ∷ []

abbrev unit_of : ℕ → Unit32
unit_of count = record { last_block = count; size = 512 }

abbrev two : List Unit32
two = unit_of 1000 ∷ unit_of 2000 ∷ []

abbrev asked : World Msc Call
asked = complete env_ok (max_lun_data 1 ∷ answers env_ok 0 two) (stick M.max_lun blank)

enumeration_complete_example :
    Enumerated asked.dev two [] blank [] blank
    × (commands asked.log ≡ (0x02, some inquiry_request) ∷ (capacities 0x02 2 ++ []))
enumeration_complete_example =
    enumeration_complete env_ok two (stick M.max_lun blank) env_ok-Allocates
      (omega arith, omega arith, (omega arith, omega arith, tt)) (omega arith) (omega arith) refl
      refl (refl, omega arith) refl

abbrev four : List Unit32
four = unit_of 1 ∷ unit_of 2 ∷ unit_of 3 ∷ unit_of 4 ∷ []

-- The endpoint is busy for the first two submissions.
abbrev env_busy : Env Call
env_busy = record {
  code = λ log c. elim c [
    | M.transfer_alloc _ ↦ 1
    | M.notify_wait _ ↦ 1
    | M.submit _ _ _ _ ↦ if ltb (submissions log) 2 then err_busy else 0
    | _ ↦ 0
  ];
  int = λ _ _. pos 0;
  bytes = λ _ _. [];
}

env_busy-BusyUntil : BusyUntil env_busy 2
env_busy-BusyUntil log t ep size bytes h = ground arith

read10_terminates_example :
    (err : ℕ) × ((read10 env_busy 3 0 8 1 4096 (stick M.idle (512 ∷ []))).0 ≡ some err)
read10_terminates_example =
    read10_terminates env_busy 2 2 0 8 1 4096 (stick M.idle (512 ∷ [])) env_busy-BusyUntil
      (omega arith)

abbrev block : List ℕ
block = 1 ∷ 2 ∷ 3 ∷ 4 ∷ []

write_ok : (write10 env_ok 0 8 1 block (stick M.idle (4 ∷ []))).0 ≡ 0
unfolding write10
write_ok = refl

write10_request_example :
    (cbw : List ℕ) × (sent 0x02 (write10 env_ok 0 8 1 block (stick M.idle (4 ∷ []))).1.log
      ≡ (4, take 4 block) ∷ (31, cbw) ∷ [])
    × (decode cbw
        ≡ some (record {
          tag = 0x1234;
          lun = 0;
          to_host = false;
          opcode = 0x2a;
          lba = 8;
          blocks = 1;
          bytes = 4;
        }))
write10_request_example =
    write10_request env_ok 0 8 1 block (stick M.idle (4 ∷ [])) (omega arith) (omega arith)
      (omega arith) (omega arith) refl write_ok

raw_write_ok : (raw_write env_ok (0xff ∷ 0 ∷ []) 1 8 1 block (stick M.idle (4 ∷ []))).0 ≡ 0
unfolding raw_write write10
raw_write_ok = refl

raw_write_request_example :
    (cbw : List ℕ) × (sent 0x02
        (raw_write env_ok (0xff ∷ 0 ∷ []) 1 8 1 block (stick M.idle (4 ∷ []))).1.log
      ≡ (4, take 4 block) ∷ (31, cbw) ∷ [])
    × (decode cbw
        ≡ some (record {
          tag = 0x1234;
          lun = 0;
          to_host = false;
          opcode = 0x2a;
          lba = 8;
          blocks = 1;
          bytes = 4;
        }))
raw_write_request_example =
    raw_write_request env_ok (0xff ∷ 0 ∷ []) 1 8 1 block (stick M.idle (4 ∷ [])) (omega arith)
      (omega arith) (omega arith) (omega arith) refl raw_write_ok

raw_ioctl-sectors_example :
    ((raw_ioctl env_ok (0xff ∷ 1 ∷ []) 1 get_sector_count asked).0 ≡ (0, some (2001 - 1)))
    × ((raw_ioctl env_ok (0xff ∷ 1 ∷ []) 1 get_sector_size asked).0 ≡ (0, some (512 % 2 ^ 16)))
raw_ioctl-sectors_example =
    raw_ioctl-sectors env_ok (0xff ∷ 1 ∷ []) 1 two (unit_of 2000) (stick M.max_lun blank)
      env_ok-Allocates (omega arith, omega arith, (omega arith, omega arith, tt)) (omega arith)
      (omega arith) refl refl (refl, omega arith) refl refl

-- Drive 0 is free, and the last call of a mount answers `last`.
abbrev env_drive : ℕ → Env D.Call
env_drive last = record {
  code = λ log c. elim c [ D.f_mount _ ↦ last | _ ↦ 0 ];
  int = λ _ _. pos 0;
  bytes = λ _ _. 0 ∷ [];
}

abbrev table : World Disk D.Call
table = record { dev = record { handles = 0xff ∷ 0xff ∷ []; luns = 1; fault = false }; log = [] }

not_there : find_from 0 (0xff ∷ 0xff ∷ []) 1 ≡ none
unfolding find_from
not_there = refl

mounted : (mount (env_drive 0) 1 table).0 ≡ true
unfolding mount
mounted = refl

mount-unmount_example :
    let w' = (mount (env_drive 0) 1 table).1 in
    let v = (rawmsc_unmount (env_drive 0) 1 w').1 in
    (get_drive_path w'.dev.handles 1 ≡ some 0)
    × (v.dev.handles ≡ set (0xff ∷ 0xff ∷ []) 0 0xff)
    × (v.log ≡ D.unregister_drive 0 ∷ D.f_unmount 0 ∷ D.vfs_unregister ∷ w'.log)
mount-unmount_example = mount-unmount (env_drive 0) 1 table (omega arith) not_there mounted
