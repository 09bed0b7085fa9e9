-- ===== src/Tests/Doorbells.antt =====
-- The doorbells.
use openflash_controller_lab.Base.{
  ℕ, zero, suc, ◌≡◌, refl, ap, sym, inr, arith, err, out_of_fuel, ok-injective,
}
use openflash_controller_lab.Abi.Struct.{Command, encode_command, decode_command}
use openflash_controller_lab.Platform.Memory.{World, memory_host, memory_host-IsLawful}
use openflash_controller_lab.Device.State.{State}
use openflash_controller_lab.Device.Execute.{execute, flush, persist, rejects_ioq}
use openflash_controller_lab.Device.Doorbell.{
  process_sq, process_one, fetch, complete, advance_tail, ignores_doorbell,
}
use openflash_controller_lab.Device.Drained.{NoCreate}
use openflash_controller_lab.Device.Progress.{Served, process_sq-admin, process_sq-io}
use openflash_controller_lab.Device.Hang.{Trap, process_sq-Trap}
use openflash_controller_lab.Tests.Fixture.{sq, cq, disk, command, guest, disk-IsValid}

process_sq-admin_example :
    Served memory_host memory_host-IsLawful 0 1 disk
      (guest (command 0x80))
      (process_sq memory_host 4098 0 1 disk (guest (command 0x80)))
process_sq-admin_example =
    process_sq-admin memory_host memory_host-IsLawful 4098 1 disk (guest (command 0x80))
      disk-IsValid (omega arith)

one_flush : (n : ℕ) → NoCreate memory_host memory_host-IsLawful n 1 1 disk (guest (command 3))
unfolding process_one fetch execute flush persist complete advance_tail decode_command
    encode_command
one_flush zero = tt
one_flush (suc n) = λ _. (
  inr (omega arith),
  λ s' w' e. idle n s' w' (ap (λ (r : State × World). r.0.io.sq_head) (sym (ok-injective e))),
)
  where
    idle :
        (n : ℕ) (s : State) (w : World)
        → s.io.sq_head ≡ 1
        → NoCreate memory_host memory_host-IsLawful n 1 1 s w
    idle zero s w h = tt
    idle (suc n) s w h = λ ne. absurd (ne h)

process_sq-io_example :
    Served memory_host memory_host-IsLawful 1 1 disk
      (guest (command 3))
      (process_sq memory_host 4098 1 1 disk (guest (command 3)))
process_sq-io_example =
    process_sq-io memory_host memory_host-IsLawful 4098 1 disk (guest (command 3)) disk-IsValid
      (omega arith) (one_flush 4098)

-- CREATE_IOQ for queue 1 and vector 1, one entry, on the rings that the queue has already.
abbrev trap : Command
trap = record (command 0x81) { control = 0x10001; data_addr = sq; metadata_addr = cq }

trap_set : Trap memory_host disk (guest trap) trap
unfolding decode_command encode_command rejects_ioq
trap_set = record {
  at_slot = refl;
  opcode = refl;
  accepted = refl;
  itself = refl;
  one_entry = refl;
  sq_fits = omega arith;
  cq_fits = omega arith;
  cq_ram = refl;
  apart = inr (omega arith);
}

process_sq-Trap_example : process_sq memory_host 1000000 1 2 disk (guest trap) ≡ err out_of_fuel
unfolding ignores_doorbell
process_sq-Trap_example =
    process_sq-Trap memory_host memory_host-IsLawful trap 1000000 2 disk (guest trap) refl
      (omega arith) trap_set (refl, refl)
