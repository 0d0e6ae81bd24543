-- ===== src/Usb/Wire.antt =====
-- components/usb-host-comp/include/usb_requests.hpp: the packets of the USB mass storage class and
-- their bytes.
pub mod Device
use esp32sx_c_plus_wrappers.Base.{
  ℕ, ◌+◌, ◌*◌, ◌/◌, ◌%◌, ◌^◌, List, [], ◌∷◌, ◌++◌, Bool, if◌then◌else◌,
}
use esp32sx_c_plus_wrappers.Base.Bytes.{le32}

-- `scsi_cmd10_t`, ten bytes in this order.
pub record ScsiCmd10 : Type 0 where
  pub opcode : ℕ
  pub flags : ℕ
  pub lba_3 : ℕ
  pub lba_2 : ℕ
  pub lba_1 : ℕ
  pub lba_0 : ℕ
  pub group : ℕ
  pub len_1 : ℕ
  pub len_0 : ℕ
  pub control : ℕ

abbrev pub cmd_bytes : ScsiCmd10 → List ℕ
cmd_bytes c =
    c.opcode ∷ c.flags ∷ c.lba_3 ∷ c.lba_2 ∷ c.lba_1 ∷ c.lba_0 ∷ c.group ∷ c.len_1 ∷ c.len_0
    ∷ c.control ∷ []

-- `scsi_cmd10_t cbw = {}` with its opcode.
abbrev pub bare_cmd : ℕ → ScsiCmd10
bare_cmd opcode = record {
  opcode = opcode;
  flags = 0;
  lba_3 = 0;
  lba_2 = 0;
  lba_1 = 0;
  lba_0 = 0;
  group = 0;
  len_1 = 0;
  len_0 = 0;
  control = 0;
}

-- `msc_bulk_cbw_t`, packed.
pub record BulkCbw : Type 0 where
  pub signature : ℕ
  pub tag : ℕ
  pub transfer_length : ℕ
  pub flags : ℕ
  pub lun : ℕ
  pub cb_length : ℕ
  pub command : ScsiCmd10
  pub padding : List ℕ

-- MSC_SCSI_INIT_CBW, over a buffer whose last bytes are `padding`. The length is a `uint32_t`.
unfoldable pub init_cbw : List ℕ → Bool → ℕ → ℕ → ScsiCmd10 → ℕ → BulkCbw
init_cbw padding is_read lun tag cmd len = record {
  signature = 0x43425355;
  tag = tag;
  transfer_length = len % 2 ^ 32;
  flags = if is_read then 0x80 else 0;
  lun = lun;
  cb_length = 10;
  command = cmd;
  padding = padding;
}

-- The memory of the packet: 31 bytes, if the padding has 6.
unfoldable pub cbw_bytes : BulkCbw → List ℕ
cbw_bytes c =
    le32 c.signature
    ++ (le32 c.tag
        ++ (le32 c.transfer_length
            ++ (c.flags ∷ c.lun ∷ c.cb_length ∷ (cmd_bytes c.command ++ c.padding))))

-- The command of `_read10` and `_write10`: `offset` is the bit pattern of the C `int`, and the two
-- length bytes hold the sector count.
unfoldable pub rw10_cmd : ℕ → ℕ → ℕ → ScsiCmd10
rw10_cmd opcode offset num_sectors = record {
  opcode = opcode;
  flags = 0;
  lba_3 = offset / 2 ^ 24 % 256;
  lba_2 = offset / 2 ^ 16 % 256;
  lba_1 = offset / 2 ^ 8 % 256;
  lba_0 = offset % 256;
  group = 0;
  len_1 = num_sectors / 2 ^ 8 % 256;
  len_0 = num_sectors % 256;
  control = 0;
}

-- `usb_setup_packet_t`, packed; its words are sent lowest byte first.
pub record Setup : Type 0 where
  pub request_type : ℕ
  pub request : ℕ
  pub value : ℕ
  pub index : ℕ
  pub length : ℕ

abbrev pub setup_bytes : Setup → List ℕ
setup_bytes s =
    s.request_type
    ∷ s.request
    ∷ s.value % 256
    ∷ s.value / 2 ^ 8 % 256
    ∷ s.index % 256
    ∷ s.index / 2 ^ 8 % 256
    ∷ s.length % 256
    ∷ s.length / 2 ^ 8 % 256
    ∷ []

-- MSC_SCSI_REQ_INIT_RESET: a class request to the interface, without data.
abbrev pub req_init_reset : ℕ → Setup
req_init_reset itf = record {
  request_type = 0x21;
  request = 0xff;
  value = 0;
  index = itf;
  length = 0;
}

-- MSC_SCSI_REQ_MAX_LUN: a class request from the interface, with one byte of data.
abbrev pub req_max_lun : ℕ → Setup
req_max_lun itf = record { request_type = 0xa1; request = 0xfe; value = 0; index = itf; length = 1 }
