-- ===== src/Device/Wrap.antt =====
-- The range check of openflash_execute, whose byte offset is `lba * 4096` in 64 bits.
use openflash_controller_lab.Base.{
  ◌+◌, ◌*◌, ◌^◌, ◌≤◌, ◌<◌, ◌≡◌, ◌∙◌, arith, u32, ok, if◌then◌else◌, ltb,
}
use openflash_controller_lab.Abi.Struct.{Command}
use openflash_controller_lab.Abi.StatusCode
use openflash_controller_lab.Platform.{Host}
use openflash_controller_lab.Device.State.{State, block_size}
use openflash_controller_lab.Device.Transfer.{transfer}
use openflash_controller_lab.Device.Execute.{
  execute, create_ioq, rejects_ioq, run_data, run_read, run_write, run_discard, read_result,
  write_result, make_durable, finish, outside_capacity, byte_offset,
}
use openflash_controller_lab.Device.Contents.{IsData, execute_data}

outside_lem :
    (s : State) (cmd : Command)
    → cmd.lba < 2 ^ 52
    → cmd.nblocks < u32
    → outside_capacity s cmd ≡ ltb s.capacity ((cmd.lba + cmd.nblocks) * block_size)
unfolding outside_capacity
outside_lem s cmd l n = ground arith

-- A data command with some blocks, below block 2^52, is answered LBA_RANGE and changes nothing
-- exactly when its last byte would lie past the capacity; otherwise it goes to its opcode's case.
pub execute_range :
    (H : Host) (s : State) (w : H.World) (cmd : Command)
    → IsData cmd
    → 1 ≤ cmd.nblocks
    → cmd.nblocks < u32
    → cmd.lba < 2 ^ 52
    → execute H s w cmd ≡ (
        if ltb s.capacity ((cmd.lba + cmd.nblocks) * block_size)
        then ok (finish H StatusCode.lba_range 0 s w)
        else run_data H s w cmd)
execute_range H s w cmd d n f l = execute_data H s w cmd d n ∙ rw (outside_lem s cmd l f)

-- The command moved up by 2^52 blocks, far outside any medium.
abbrev pub far : Command → Command
far cmd = record cmd { lba = cmd.lba + 2 ^ 52 }

far_offset : (cmd : Command) → byte_offset (far cmd) ≡ byte_offset cmd
far_offset cmd = omega arith

-- The offset wraps: a command whose address lies 2^52 blocks further on is carried out on the
-- blocks of the command without that, with the same status and the same effects.
pub execute-far :
    (H : Host) (s : State) (w : H.World) (cmd : Command)
    → execute H s w (far cmd) ≡ execute H s w cmd
unfolding execute create_ioq rejects_ioq run_data run_read run_write run_discard read_result
    write_result make_durable outside_capacity transfer
execute-far H s w cmd = rw (far_offset cmd)
