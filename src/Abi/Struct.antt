-- ===== src/Abi/Struct.antt =====
-- The packed little-endian structures. A field is a number, its width that of the comment.
use openflash_controller_lab.Base.{
  ℕ, List, ◌++◌, le_bytes, of_le_bytes, take, drop, replicate, Bool, test_bit,
}

-- u8 opcode, flags; u16 qid, cid, reserved0; u64 lba; u32 nblocks, control; u64 data_addr,
-- metadata_addr, user_data, reserved1[2].
pub record Command : Type 0 where
  pub opcode : ℕ
  pub flags : ℕ
  pub qid : ℕ
  pub cid : ℕ
  pub reserved0 : ℕ
  pub lba : ℕ
  pub nblocks : ℕ
  pub control : ℕ
  pub data_addr : ℕ
  pub metadata_addr : ℕ
  pub user_data : ℕ
  pub reserved1_0 : ℕ
  pub reserved1_1 : ℕ

-- u64 result, user_data; u16 sq_head, cid, status, flags. `reserved[5]` is zero on every path.
pub record Completion : Type 0 where
  pub result : ℕ
  pub user_data : ℕ
  pub sq_head : ℕ
  pub cid : ℕ
  pub status : ℕ
  pub flags : ℕ

-- u64 addr; u32 length, reserved.
pub record SglDesc : Type 0 where
  pub addr : ℕ
  pub length : ℕ
  pub reserved : ℕ

abbrev pub command_size : ℕ
command_size = 64

abbrev pub completion_size : ℕ
completion_size = 64

abbrev pub sgl_desc_size : ℕ
sgl_desc_size = 16

abbrev pub max_sgl_entries : ℕ
max_sgl_entries = 16

-- Bits 0 and 1 of `flags` in a command.
abbrev pub has_fua : Command → Bool
has_fua c = test_bit c.flags 0

abbrev pub has_sgl : Command → Bool
has_sgl c = test_bit c.flags 1

-- The little-endian number of `n` bytes at offset `i`.
abbrev pub load : ℕ → ℕ → List ℕ → ℕ
load i n bs = of_le_bytes (take n (drop i bs))

unfoldable pub decode_command : List ℕ → Command
decode_command bs = record {
  opcode = load 0 1 bs;
  flags = load 1 1 bs;
  qid = load 2 2 bs;
  cid = load 4 2 bs;
  reserved0 = load 6 2 bs;
  lba = load 8 8 bs;
  nblocks = load 16 4 bs;
  control = load 20 4 bs;
  data_addr = load 24 8 bs;
  metadata_addr = load 32 8 bs;
  user_data = load 40 8 bs;
  reserved1_0 = load 48 8 bs;
  reserved1_1 = load 56 8 bs;
}

unfoldable pub encode_command : Command → List ℕ
encode_command c =
    le_bytes 1 c.opcode
    ++ (le_bytes 1 c.flags
        ++ (le_bytes 2 c.qid
            ++ (le_bytes 2 c.cid
                ++ (le_bytes 2 c.reserved0
                    ++ (le_bytes 8 c.lba
                        ++ (le_bytes 4 c.nblocks
                            ++ (le_bytes 4 c.control
                                ++ (le_bytes 8 c.data_addr
                                    ++ (le_bytes 8 c.metadata_addr
                                        ++ (le_bytes 8 c.user_data
                                            ++ (le_bytes 8 c.reserved1_0
                                                ++ le_bytes 8 c.reserved1_1)))))))))))

unfoldable pub decode_completion : List ℕ → Completion
decode_completion bs = record {
  result = load 0 8 bs;
  user_data = load 8 8 bs;
  sq_head = load 16 2 bs;
  cid = load 18 2 bs;
  status = load 20 2 bs;
  flags = load 22 2 bs;
}

unfoldable pub encode_completion : Completion → List ℕ
encode_completion c =
    le_bytes 8 c.result
    ++ (le_bytes 8 c.user_data
        ++ (le_bytes 2 c.sq_head
            ++ (le_bytes 2 c.cid
                ++ (le_bytes 2 c.status ++ (le_bytes 2 c.flags ++ replicate 40 0)))))

unfoldable pub decode_sgl_desc : List ℕ → SglDesc
decode_sgl_desc bs = record { addr = load 0 8 bs; length = load 8 4 bs; reserved = load 12 4 bs }

unfoldable pub encode_sgl_desc : SglDesc → List ℕ
encode_sgl_desc d = le_bytes 8 d.addr ++ (le_bytes 4 d.length ++ le_bytes 4 d.reserved)
