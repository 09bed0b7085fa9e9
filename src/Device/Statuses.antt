-- ===== src/Device/Statuses.antt =====
-- `openflash_execute`: which branch answers with LBA_RANGE.
use openflash_controller_lab.Base.{
  ℕ, ◌≡◌, ◌≢◌, inl, inr, Bool, true, false, Bool-cases, List, replicate, arith, ◌==◌, ok, Gives,
  Gives-bind,
}
use openflash_controller_lab.Abi.Opcode
use openflash_controller_lab.Abi.StatusCode
use openflash_controller_lab.Abi.Struct.{Command}
use openflash_controller_lab.Platform.{Host}
use openflash_controller_lab.Device.State.{State}
use openflash_controller_lab.Device.Transfer.{transfer, store_bytes}
use openflash_controller_lab.Device.Execute.{
  Executed, execute, create_ioq, flush, read_result, make_durable, write_result, run_read,
  run_write, run_discard, run_data, outside_capacity, byte_offset, byte_length, finish,
}

module _ (H : Host) (s : State) (cmd : Command) where
  abbrev InRangeAnswer : Executed H → Type 0
  InRangeAnswer e = e.status ≢ StatusCode.lba_range

  create_ioq-answer : (w : H.World) → InRangeAnswer (create_ioq H s w cmd)
  unfolding create_ioq
  create_ioq-answer w = ground arith

  flush-answer : (w : H.World) → InRangeAnswer (flush H s w)
  unfolding flush
  flush-answer w = ground arith

  read_result-answer : (t : Bool × List ℕ × H.World) → InRangeAnswer (read_result H s cmd t)
  unfolding read_result
  read_result-answer (done, storage, w) = ground arith

  write_result-answer : (t : Bool × List ℕ × H.World) → InRangeAnswer (write_result H s cmd t)
  unfolding write_result make_durable
  write_result-answer (done, storage, w) = ground arith

  run_read-answer : (w : H.World) → Gives InRangeAnswer (run_read H s w cmd)
  unfolding run_read
  run_read-answer w =
      Gives-bind InRangeAnswer
        (transfer H s.storage w cmd (byte_offset cmd) (byte_length cmd) false)
        (λ t. ok (read_result H s cmd t)) (λ t. read_result-answer t)

  run_write-answer : (w : H.World) → Gives InRangeAnswer (run_write H s w cmd)
  unfolding run_write
  run_write-answer w =
      Gives-bind InRangeAnswer (transfer H s.storage w cmd (byte_offset cmd) (byte_length cmd) true)
        (λ t. ok (write_result H s cmd t)) (λ t. write_result-answer t)

  run_discard-answer : (w : H.World) → Gives InRangeAnswer (run_discard H s w cmd)
  unfolding run_discard
  run_discard-answer w =
      Gives-bind InRangeAnswer
        (store_bytes s.storage (byte_offset cmd) (replicate (byte_length cmd) 0))
        (λ st. ok (finish H StatusCode.success cmd.nblocks (record s { storage = st }) w))
        (λ st h. omega (arith, h))

  run_data-answer : (w : H.World) → Gives InRangeAnswer (run_data H s w cmd)
  unfolding run_data
  run_data-answer w = elim (Bool-cases (cmd.opcode == Opcode.read)) [
    | inl reads ↦ rw reads (run_read-answer w)
    | inr a ↦ elim (Bool-cases (cmd.opcode == Opcode.write)) [
      | inl writes ↦ rw (a, writes) (run_write-answer w)
      | inr b ↦ elim (Bool-cases (cmd.opcode == Opcode.discard)) [
        | inl discards ↦ rw (a, b, discards) (run_discard-answer w)
        | inr c ↦ rw (a, b, c) (λ h. omega (arith, h))
      ]
    ]
  ]

  -- A command that is inside the capacity is not answered LBA_RANGE.
  pub execute-answer :
      (w : H.World) → outside_capacity s cmd ≡ false → Gives InRangeAnswer (execute H s w cmd)
  unfolding execute
  execute-answer w inside = elim (Bool-cases (cmd.opcode == Opcode.identify)) [
    | inl identifies ↦ rw identifies (λ h. omega (arith, h))
    | inr a ↦ elim (Bool-cases (cmd.opcode == Opcode.create_ioq)) [
      | inl creates ↦ rw (a, creates) (create_ioq-answer w)
      | inr b ↦ elim (Bool-cases (cmd.opcode == Opcode.flush)) [
        | inl flushes ↦ rw (a, b, flushes) (flush-answer w)
        | inr c ↦ elim (Bool-cases (cmd.nblocks == 0)) [
          | inl nothing ↦ rw (a, b, c, nothing) (λ h. omega (arith, h))
          | inr some_blocks ↦ rw (a, b, c, some_blocks, inside) (run_data-answer w)
        ]
      ]
    ]
  ]
