-- ===== src/Device/Execute.antt =====
-- `openflash_persist` and `openflash_execute`: one command against the state.
use Prim.Native.String.{String}
use openflash_controller_lab.Base.{
  ℕ, ◌-◌, ◌*◌, ◌/◌, ◌%◌, Bool, true, false, ◌||◌, Option, none, some, List, take, replicate, ltb,
  leb, ◌==◌, if◌then◌else◌, u16, u64, Outcome, ok, ◌>>=◌,
}
use openflash_controller_lab.Abi.Opcode
use openflash_controller_lab.Abi.StatusCode
use openflash_controller_lab.Abi.Struct.{Command, has_fua}
use openflash_controller_lab.Platform.{Host}
use openflash_controller_lab.Device.State.{State, Queue, block_size, max_queues, set_queue}
use openflash_controller_lab.Device.Transfer.{transfer, store_bytes}

-- `lba * OF_BLOCK_SIZE` and `(uint64_t)nblocks * OF_BLOCK_SIZE`.
abbrev pub byte_offset : Command → ℕ
byte_offset cmd = (cmd.lba * block_size) % u64

abbrev pub byte_length : Command → ℕ
byte_length cmd = (cmd.nblocks * block_size) % u64

-- `offset > s->capacity || length > s->capacity - offset`
unfoldable pub outside_capacity : State → Command → Bool
outside_capacity s cmd =
    ltb s.capacity (byte_offset cmd) || ltb (s.capacity - byte_offset cmd) (byte_length cmd)

abbrev pub ioq_id : Command → ℕ
ioq_id cmd = cmd.control % u16

abbrev pub ioq_vector : Command → ℕ
ioq_vector cmd = (cmd.control / u16) % u16

-- The guard of CREATE_IOQ.
unfoldable pub rejects_ioq : Command → Bool
rejects_ioq cmd =
    ioq_id cmd == 0
    || leb max_queues (ioq_id cmd)
    || leb max_queues (ioq_vector cmd)
    || cmd.nblocks == 0
    || ltb 4096 cmd.nblocks
    || cmd.data_addr == 0
    || cmd.metadata_addr == 0

-- Every field but the guest's CQ consumption starts over; all of them are written.
abbrev pub new_ioq : Command → Queue
new_ioq cmd = record {
  sq_addr = cmd.data_addr;
  cq_addr = cmd.metadata_addr;
  depth = cmd.nblocks;
  sq_head = 0;
  cq_tail = 0;
  cq_head = 0;
  vector = ioq_vector cmd;
  cq_phase = 1;
  enabled = true;
}

module _ (H : Host) where
  -- What a command leaves behind: its status and result, the state and the world.
  pub record Executed : Type 0 where
    pub status : ℕ
    pub result : ℕ
    pub state : State
    pub world : H.World

  persist_to : Option String → State → H.World → Bool × H.World
  persist_to none s w = (true, w)
  persist_to (some file) s w =
      let (w', written) = H.file_set_contents w file (take s.capacity s.storage) in (written, w')

  unfoldable pub persist : State → H.World → Bool × H.World
  unfolding persist_to
  persist s w = persist_to s.backing_file s w

  abbrev pub finish : ℕ → ℕ → State → H.World → Executed
  finish status result s w = record { status = status; result = result; state = s; world = w }

  unfoldable pub create_ioq : State → H.World → Command → Executed
  create_ioq s w cmd =
      if rejects_ioq cmd
      then finish StatusCode.invalid_field 0 s w
      else finish StatusCode.success (ioq_id cmd) (set_queue s (ioq_id cmd) (new_ioq cmd)) w

  unfoldable pub flush : State → H.World → Executed
  flush s w =
      let (done, w') = persist s w in
      if done then finish StatusCode.success 0 s w' else finish StatusCode.internal 0 s w'

  -- The rest of OF_OP_READ, after its transfer.
  unfoldable pub read_result : State → Command → Bool × List ℕ × H.World → Executed
  read_result s cmd (done, storage, w) =
      let s' = record s { storage = storage } in
      if done
      then finish StatusCode.success cmd.nblocks s' w
      else finish StatusCode.invalid_field 0 s' w

  unfoldable pub run_read : State → H.World → Command → Outcome Executed
  run_read s w cmd = transfer H s.storage w cmd (byte_offset cmd) (byte_length cmd) false >>= λ t.
      ok (read_result s cmd t)

  -- The FUA part of OF_OP_WRITE.
  unfoldable pub make_durable : State → H.World → Command → Executed
  make_durable s w cmd =
      let (done, w') = persist s w in
      if has_fua cmd
      then (if done
          then finish StatusCode.success cmd.nblocks s w'
          else finish StatusCode.internal 0 s w')
      else finish StatusCode.success cmd.nblocks s w

  -- The rest of OF_OP_WRITE, after its transfer.
  unfoldable pub write_result : State → Command → Bool × List ℕ × H.World → Executed
  unfolding make_durable
  write_result s cmd (done, storage, w) =
      let s' = record s { storage = storage } in
      if done then make_durable s' w cmd else finish StatusCode.invalid_field 0 s' w

  unfoldable pub run_write : State → H.World → Command → Outcome Executed
  run_write s w cmd = transfer H s.storage w cmd (byte_offset cmd) (byte_length cmd) true >>= λ t.
      ok (write_result s cmd t)

  unfoldable pub run_discard : State → H.World → Command → Outcome Executed
  run_discard s w cmd =
      store_bytes s.storage (byte_offset cmd) (replicate (byte_length cmd) 0) >>= λ storage'.
      ok (finish StatusCode.success cmd.nblocks (record s { storage = storage' }) w)

  -- The `switch` over the data commands.
  unfoldable pub run_data : State → H.World → Command → Outcome Executed
  unfolding run_read run_write run_discard
  run_data s w cmd =
      if cmd.opcode == Opcode.read
      then run_read s w cmd
      else if cmd.opcode == Opcode.write
      then run_write s w cmd
      else if cmd.opcode == Opcode.discard
      then run_discard s w cmd
      else ok (finish StatusCode.invalid_opcode 0 s w)

  unfoldable pub execute : State → H.World → Command → Outcome Executed
  unfolding create_ioq flush run_data
  execute s w cmd =
      if cmd.opcode == Opcode.identify
      then ok (finish StatusCode.success (s.capacity / block_size) s w)
      else if cmd.opcode == Opcode.create_ioq
      then ok (create_ioq s w cmd)
      else if cmd.opcode == Opcode.flush
      then ok (flush s w)
      else if cmd.nblocks == 0
      then ok (finish StatusCode.invalid_field 0 s w)
      else if outside_capacity s cmd
      then ok (finish StatusCode.lba_range 0 s w)
      else run_data s w cmd
