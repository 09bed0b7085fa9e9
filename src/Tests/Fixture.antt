-- ===== src/Tests/Fixture.antt =====
-- A controller of two blocks, a guest memory and some commands.
use Prim.Native.String.{String}
use openflash_controller_lab.Base.{
  ℕ, ◌+◌, ◌-◌, ◌<◌, ◌≡◌, refl, true, none, some, [], arith, length, length-replicate, replicate,
  leb, ltb, ◌&&◌, if◌then◌else◌, get_or,
}
use openflash_controller_lab.Abi.Struct.{Command, encode_command}
use openflash_controller_lab.Abi.Layout.{CommandFits}
use openflash_controller_lab.Device.State.{State, Queue}
use openflash_controller_lab.Device.Invariant.{IsValid}
use openflash_controller_lab.Device.Contents.{InRange, IsPlain}
use openflash_controller_lab.Platform.Memory.{World}

abbrev pub sq : ℕ
sq = 0x10000

abbrev pub cq : ℕ
cq = 0x20000

-- A ring of four entries, empty.
abbrev pub ring : Queue
ring = record {
  sq_addr = sq;
  cq_addr = cq;
  depth = 4;
  sq_head = 0;
  cq_tail = 0;
  cq_head = 0;
  vector = 0;
  cq_phase = 1;
  enabled = true;
}

abbrev pub disk : State
disk = record {
  admin = ring;
  io = record ring { vector = 1 };
  control = 1;
  status = 1;
  capacity = 8192;
  storage = replicate 8192 0;
  backing_file = none;
}

abbrev pub image : String
image = "openflash.img"

abbrev pub backed : State
backed = record disk { backing_file = some image }

-- A command of one block at block 1, with its buffer at 0x30000.
abbrev pub command : ℕ → Command
command opcode = record {
  opcode = opcode;
  flags = 0;
  qid = 1;
  cid = 7;
  reserved0 = 0;
  lba = 1;
  nblocks = 1;
  control = 0;
  data_addr = 0x30000;
  metadata_addr = 0;
  user_data = 0xcafe;
  reserved1_0 = 0;
  reserved1_1 = 0;
}

-- Guest memory with a command in slot 0 of the submission ring, and 5 everywhere else.
abbrev pub guest : Command → World
guest cmd = record {
  memory = λ a. if leb sq a && ltb a (sq + 64) then get_or (encode_command cmd) (a - sq) 0 else 5;
  file = none;
  enabled = true;
  notified = [];
}

pub full : length (replicate {A = ℕ} 8192 0) ≡ 8192
full = length-replicate {A = ℕ} 8192 0

pub disk-IsValid : IsValid disk
disk-IsValid = record {
  admin_valid = omega arith;
  io_valid = omega arith;
  storage_full = full;
  capacity_fits = omega arith;
  one_block = omega arith;
  whole_blocks = omega arith;
  status_le = omega arith;
}

pub backed-IsValid : IsValid backed
backed-IsValid = record {
  admin_valid = omega arith;
  io_valid = omega arith;
  storage_full = full;
  capacity_fits = omega arith;
  one_block = omega arith;
  whole_blocks = omega arith;
  status_le = omega arith;
}

pub command-CommandFits : (opcode : ℕ) → opcode < 256 → CommandFits (command opcode)
command-CommandFits opcode h = omega arith

pub command-InRange : (opcode : ℕ) → InRange disk (command opcode)
command-InRange opcode = record {
  some_blocks = omega arith;
  within = omega arith;
  capacity_fits = omega arith;
  storage_full = full;
}

pub command-IsPlain : (opcode : ℕ) → IsPlain (command opcode)
command-IsPlain opcode = record { no_list = refl; buffer = omega arith }

pub backed-InRange : (opcode : ℕ) → InRange backed (record (command opcode) { flags = 1 })
backed-InRange opcode = record {
  some_blocks = omega arith;
  within = omega arith;
  capacity_fits = omega arith;
  storage_full = full;
}
