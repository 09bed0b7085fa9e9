-- ===== src/Abi/Layout.antt =====
-- The structures occupy the sizes that the static assertions name, and survive a round trip
-- through the bytes of the rings.
use openflash_controller_lab.Base.{
  ℕ, arith, ◌^◌, ◌<◌, ◌≡◌, refl, u16, u32, u64, length, of_le_bytes-le_bytes, List, drop, AreBytes,
  drop-AreBytes, of_le_bytes-take-lt,
}
use openflash_controller_lab.Abi.Struct.{
  Command, Completion, SglDesc, command_size, completion_size, sgl_desc_size, decode_command,
  encode_command, decode_completion, encode_completion, decode_sgl_desc, encode_sgl_desc,
}

-- Every field fits its width.
pub record CommandFits (c : Command) : Type 0 where
  pub opcode_fits : c.opcode < 2 ^ 8
  pub flags_fits : c.flags < 2 ^ 8
  pub qid_fits : c.qid < u16
  pub cid_fits : c.cid < u16
  pub reserved0_fits : c.reserved0 < u16
  pub lba_fits : c.lba < u64
  pub nblocks_fits : c.nblocks < u32
  pub control_fits : c.control < u32
  pub data_addr_fits : c.data_addr < u64
  pub metadata_addr_fits : c.metadata_addr < u64
  pub user_data_fits : c.user_data < u64
  pub reserved1_0_fits : c.reserved1_0 < u64
  pub reserved1_1_fits : c.reserved1_1 < u64

pub record CompletionFits (c : Completion) : Type 0 where
  pub result_fits : c.result < u64
  pub user_data_fits : c.user_data < u64
  pub sq_head_fits : c.sq_head < u16
  pub cid_fits : c.cid < u16
  pub status_fits : c.status < u16
  pub flags_fits : c.flags < u16

pub record SglDescFits (d : SglDesc) : Type 0 where
  pub addr_fits : d.addr < u64
  pub length_fits : d.length < u32
  pub reserved_fits : d.reserved < u32

-- A command occupies exactly 64 bytes.
pub length-encode_command : (c : Command) → length (encode_command c) ≡ command_size
unfolding encode_command
length-encode_command c = refl

-- A completion occupies exactly 64 bytes.
pub length-encode_completion : (c : Completion) → length (encode_completion c) ≡ completion_size
unfolding encode_completion
length-encode_completion c = refl

pub length-encode_sgl_desc : (d : SglDesc) → length (encode_sgl_desc d) ≡ sgl_desc_size
unfolding encode_sgl_desc
length-encode_sgl_desc d = refl

-- What the driver writes to a submission slot is what the controller reads from it.
pub decode-encode_command : (c : Command) → CommandFits c → decode_command (encode_command c) ≡ c
unfolding decode_command encode_command
decode-encode_command c f = λ i. record {
  opcode = of_le_bytes-le_bytes 1 c.opcode f.opcode_fits i;
  flags = of_le_bytes-le_bytes 1 c.flags f.flags_fits i;
  qid = of_le_bytes-le_bytes 2 c.qid f.qid_fits i;
  cid = of_le_bytes-le_bytes 2 c.cid f.cid_fits i;
  reserved0 = of_le_bytes-le_bytes 2 c.reserved0 f.reserved0_fits i;
  lba = of_le_bytes-le_bytes 8 c.lba f.lba_fits i;
  nblocks = of_le_bytes-le_bytes 4 c.nblocks f.nblocks_fits i;
  control = of_le_bytes-le_bytes 4 c.control f.control_fits i;
  data_addr = of_le_bytes-le_bytes 8 c.data_addr f.data_addr_fits i;
  metadata_addr = of_le_bytes-le_bytes 8 c.metadata_addr f.metadata_addr_fits i;
  user_data = of_le_bytes-le_bytes 8 c.user_data f.user_data_fits i;
  reserved1_0 = of_le_bytes-le_bytes 8 c.reserved1_0 f.reserved1_0_fits i;
  reserved1_1 = of_le_bytes-le_bytes 8 c.reserved1_1 f.reserved1_1_fits i;
}

-- What the controller writes to a completion slot is what the driver reads from it.
pub decode-encode_completion :
    (c : Completion) → CompletionFits c → decode_completion (encode_completion c) ≡ c
unfolding decode_completion encode_completion
decode-encode_completion c f = λ i. record {
  result = of_le_bytes-le_bytes 8 c.result f.result_fits i;
  user_data = of_le_bytes-le_bytes 8 c.user_data f.user_data_fits i;
  sq_head = of_le_bytes-le_bytes 2 c.sq_head f.sq_head_fits i;
  cid = of_le_bytes-le_bytes 2 c.cid f.cid_fits i;
  status = of_le_bytes-le_bytes 2 c.status f.status_fits i;
  flags = of_le_bytes-le_bytes 2 c.flags f.flags_fits i;
}

-- An entry of a scatter-gather list is read back as it was written.
pub decode-encode_sgl_desc : (d : SglDesc) → SglDescFits d → decode_sgl_desc (encode_sgl_desc d) ≡ d
unfolding decode_sgl_desc encode_sgl_desc
decode-encode_sgl_desc d f = λ i. record {
  addr = of_le_bytes-le_bytes 8 d.addr f.addr_fits i;
  length = of_le_bytes-le_bytes 4 d.length f.length_fits i;
  reserved = of_le_bytes-le_bytes 4 d.reserved f.reserved_fits i;
}

-- Any 64 bytes are a command whose fields fit.
pub decode_command-CommandFits : (bs : List ℕ) → AreBytes bs → CommandFits (decode_command bs)
unfolding decode_command
decode_command-CommandFits bs h = record {
  opcode_fits = of_le_bytes-take-lt 1 (drop 0 bs) h;
  flags_fits = of_le_bytes-take-lt 1 (drop 1 bs) (drop-AreBytes 1 bs h);
  qid_fits = of_le_bytes-take-lt 2 (drop 2 bs) (drop-AreBytes 2 bs h);
  cid_fits = of_le_bytes-take-lt 2 (drop 4 bs) (drop-AreBytes 4 bs h);
  reserved0_fits = of_le_bytes-take-lt 2 (drop 6 bs) (drop-AreBytes 6 bs h);
  lba_fits = of_le_bytes-take-lt 8 (drop 8 bs) (drop-AreBytes 8 bs h);
  nblocks_fits = of_le_bytes-take-lt 4 (drop 16 bs) (drop-AreBytes 16 bs h);
  control_fits = of_le_bytes-take-lt 4 (drop 20 bs) (drop-AreBytes 20 bs h);
  data_addr_fits = of_le_bytes-take-lt 8 (drop 24 bs) (drop-AreBytes 24 bs h);
  metadata_addr_fits = of_le_bytes-take-lt 8 (drop 32 bs) (drop-AreBytes 32 bs h);
  user_data_fits = of_le_bytes-take-lt 8 (drop 40 bs) (drop-AreBytes 40 bs h);
  reserved1_0_fits = of_le_bytes-take-lt 8 (drop 48 bs) (drop-AreBytes 48 bs h);
  reserved1_1_fits = of_le_bytes-take-lt 8 (drop 56 bs) (drop-AreBytes 56 bs h);
}

-- What goes to the completion ring is bytes.
pub encode_completion-AreBytes : (c : Completion) → AreBytes (encode_completion c)
unfolding encode_completion
encode_completion-AreBytes c = omega arith
