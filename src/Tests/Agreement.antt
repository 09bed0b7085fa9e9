-- ===== src/Tests/Agreement.antt =====
-- The two sides at concrete inputs: a controller of two blocks and a driver's queue of four entries.
use openflash_controller_lab.Base.{
  Gives, ◌≢◌, ◌+◌, ◌*◌, ◌≤◌, ◌<◌, ◌≡◌, refl, false, arith, [], Succeeds,
}
use openflash_controller_lab.Abi.Opcode
use openflash_controller_lab.Abi.StatusCode
use openflash_controller_lab.Platform.Memory.{memory_host}
use openflash_controller_lab.Device.State.{block_size}
use openflash_controller_lab.Device.Execute.{execute, outside_capacity}
use openflash_controller_lab.Driver.State.{DriverQueue, op_read}
use openflash_controller_lab.Driver.Kernel.{Sys}
use openflash_controller_lab.Driver.Admin.{
  addressed, create_command, created, empty_command, take_capacity, result,
}
use openflash_controller_lab.Driver.Setup.{zeroed}
use openflash_controller_lab.Driver.Request.{BlkRequest, final_command, misaligned}
use openflash_controller_lab.Driver.Probe.{described, new_dev}
use openflash_controller_lab.Link.{
  Agrees, IsFresh, create_command-created, identify-described, final_command-inside,
}
use openflash_controller_lab.Tests.Fixture.{disk, guest, command}

abbrev queue : DriverQueue
queue = record zeroed { qid = 1; depth = 4; cq_phase = 1; sq_dma = 256; cq_dma = 128 }

queue-IsFresh : IsFresh queue
queue-IsFresh = record {
  is_io = refl;
  tail = refl;
  head = refl;
  first_phase = refl;
  some_entries = omega arith;
  not_many = omega arith;
  sq_given = λ h. omega arith;
  cq_given = λ h. omega arith;
}

create_command-created_example :
    Succeeds
      (λ e.
        (e.status ≡ StatusCode.success)
        × Agrees queue e.state.io
        × (e.state ≡ record disk { io = e.state.io })
        × (e.world ≡ guest (command 6))
        × (created 1 (result e.result) ≡ 0))
      (execute memory_host disk (guest (command 6)) (addressed zeroed (create_command queue)))
create_command-created_example =
    create_command-created memory_host disk (guest (command 6)) zeroed queue queue-IsFresh

abbrev host : Sys
host = record { dev = new_dev 0; log = [] }

identify-described_example :
    Succeeds
      (λ e.
        Succeeds
          (λ r.
            (r.0 ≡ 0)
            × ((described r.1.dev).sectors * 512 ≤ disk.capacity)
            × (disk.capacity < (described r.1.dev).sectors * 512 + block_size))
          (take_capacity (result e.result) host))
      (execute memory_host disk
        (guest (command 6))
        (addressed zeroed (empty_command Opcode.identify)))
identify-described_example =
    identify-described memory_host disk (guest (command 6)) zeroed host (omega arith) (omega arith)

abbrev last_block : BlkRequest
last_block = record {
  number = 7;
  pos = 8;
  bytes = 4096;
  tag = 0;
  op = op_read;
  fua = false;
  nr_phys_segments = 1;
  segments = [];
}

aligned : misaligned queue last_block ≡ false
unfolding misaligned
aligned = refl

final_command-inside_example :
    (outside_capacity disk (final_command queue last_block 2 1 65536) ≡ false)
    × Gives
        (λ e. e.status ≢ StatusCode.lba_range)
        (execute memory_host disk (guest (command 6)) (final_command queue last_block 2 1 65536))
final_command-inside_example =
    final_command-inside memory_host disk (guest (command 6)) queue last_block 2 1 65536 16
      (omega arith) (omega arith) aligned (omega arith) (omega arith)
