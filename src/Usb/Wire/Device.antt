-- ===== src/Usb/Wire/Device.antt =====
-- The packets as a mass storage device reads them (USB Mass Storage Class, Bulk-Only Transport, and
-- the READ(10) and WRITE(10) commands of SCSI).
use esp32sx_c_plus_wrappers.Base.{
  ℕ, ◌+◌, ◌*◌, ◌^◌, ◌<◌, List, ◌==◌, if◌then◌else◌, ◌&&◌, Bool, Option, none, some, length, get_or,
  ◌≡◌, arith, leb, true, false,
}
use esp32sx_c_plus_wrappers.Base.Bytes.{read_le32}
use esp32sx_c_plus_wrappers.Usb.Wire.{init_cbw, cbw_bytes, rw10_cmd}

-- What a device is asked for: the block address and count, and the bytes to transfer.
pub record Request : Type 0 where
  pub tag : ℕ
  pub lun : ℕ
  pub to_host : Bool
  pub opcode : ℕ
  pub lba : ℕ
  pub blocks : ℕ
  pub bytes : ℕ

-- A valid command block wrapper has 31 bytes, its signature, and a command of ten bytes.
unfoldable pub decode : List ℕ → Option Request
decode b =
    if length b == 31 && (read_le32 b 0 == 0x43425355 && get_or b 14 0 == 10)
    then some (record {
      tag = read_le32 b 4;
      lun = get_or b 13 0;
      to_host = leb 128 (get_or b 12 0);
      opcode = get_or b 15 0;
      lba = 2 ^ 24 * get_or b 17 0 + 2 ^ 16 * get_or b 18 0 + 2 ^ 8 * get_or b 19 0 + get_or b 20 0;
      blocks = 2 ^ 8 * get_or b 22 0 + get_or b 23 0;
      bytes = read_le32 b 8;
    })
    else none

-- A device reads from the packet of a READ(10) or WRITE(10) the block address, the number of
-- sectors and the number of bytes that the host was called with, when they fit their fields: 32
-- bits for the address and the bytes, 16 bits for the sectors.
pub decode-cbw :
    (padding : List ℕ) (is_read : Bool) (lun opcode offset num_sectors len : ℕ)
    → length padding ≡ 6
    → offset < 2 ^ 32
    → num_sectors < 2 ^ 16
    → len < 2 ^ 32
    → decode
        (cbw_bytes (init_cbw padding is_read lun 0x1234 (rw10_cmd opcode offset num_sectors) len))
      ≡ some (record {
        tag = 0x1234;
        lun = lun;
        to_host = is_read;
        opcode = opcode;
        lba = offset;
        blocks = num_sectors;
        bytes = len;
      })
unfolding decode cbw_bytes init_cbw rw10_cmd
decode-cbw padding true lun opcode offset num_sectors len p h k l = ground arith
decode-cbw padding false lun opcode offset num_sectors len p h k l = ground arith
