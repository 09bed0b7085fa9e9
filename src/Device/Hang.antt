-- ===== src/Device/Hang.antt =====
-- A CREATE_IOQ that comes through the I/O queue resets the queue that the loop is draining.
use openflash_controller_lab.Base.{
  ℕ, zero, suc, ◌+◌, ◌*◌, ◌%◌, ◌≤◌, ◌<◌, ◌≡◌, ◌⊎◌, refl, true, false, List, arith, length, u64, ok,
  err, out_of_fuel, ◌==◌,
}
use openflash_controller_lab.Abi.Struct.{
  Command, command_size, completion_size, decode_command, encode_completion,
}
use openflash_controller_lab.Abi.Layout.{length-encode_completion}
use openflash_controller_lab.Abi.Opcode
use openflash_controller_lab.Platform.{Host, IsLawful}
use openflash_controller_lab.Device.State.{State}
use openflash_controller_lab.Device.Execute.{
  execute, create_ioq, rejects_ioq, new_ioq, ioq_id, finish,
}
use openflash_controller_lab.Device.Doorbell.{
  advance_head, advance_tail, ignores_doorbell, fetch, post, complete, completion_of, process_one,
  process_loop, process_sq,
}

-- The I/O queue's slot 0 holds a command that makes queue 1 anew, in the same place, with one entry.
pub record Trap (H : Host) (s : State) (w : H.World) (cmd : Command) : Type 0 where
  pub at_slot : decode_command (H.dma_read w cmd.data_addr command_size) ≡ cmd
  pub opcode : cmd.opcode ≡ Opcode.create_ioq
  pub accepted : rejects_ioq cmd ≡ false
  pub itself : ioq_id cmd ≡ 1
  pub one_entry : cmd.nblocks ≡ 1
  pub sq_fits : cmd.data_addr < u64
  pub cq_fits : cmd.metadata_addr < u64
  pub cq_ram : H.is_ram cmd.metadata_addr completion_size ≡ true
  pub apart :
      (cmd.metadata_addr + completion_size ≤ cmd.data_addr)
      ⊎ (cmd.data_addr + command_size ≤ cmd.metadata_addr)

-- The queue stands at that slot.
abbrev pub AtTrap : State → Command → Type 0
AtTrap s cmd = (s.io.sq_addr ≡ cmd.data_addr) × (s.io.sq_head ≡ 0)

module _ (H : Host) (L : IsLawful H) (cmd : Command) where
  trap_state : State → State
  unfolding advance_tail
  trap_state s = record s { io = advance_tail (advance_head (new_ioq cmd)) }

  trap_world : H.World → H.World
  trap_world w =
      post H w (advance_head (new_ioq cmd)) (completion_of (advance_head (new_ioq cmd)) cmd 1 0)

  fetch-Trap : (s : State) (w : H.World) → Trap H s w cmd → AtTrap s cmd → fetch H w s.io ≡ cmd
  unfolding fetch
  fetch-Trap s w t a =
      let slot : (s.io.sq_addr + s.io.sq_head * 64) % u64 ≡ cmd.data_addr =
        omega (arith, t.sq_fits, a.0, a.1) in
      rw slot t.at_slot

  execute-Trap :
      (s : State) (w : H.World)
      → Trap H s w cmd
      → execute H s w cmd ≡ ok (finish H 0 1 (record s { io = new_ioq cmd }) w)
  unfolding execute create_ioq
  execute-Trap s w t =
      let other : (cmd.opcode == Opcode.identify) ≡ false = ground (arith, t.opcode) in
      let this : (cmd.opcode == Opcode.create_ioq) ≡ true = ground (arith, t.opcode) in
      rw (other, this, t.accepted, t.itself)

  process_one-Trap :
      (s : State) (w : H.World)
      → Trap H s w cmd
      → AtTrap s cmd
      → process_one H 1 s w ≡ ok (trap_state s, trap_world w)
  unfolding process_one complete trap_state trap_world
  process_one-Trap s w t a = rw (fetch-Trap s w t a, execute-Trap s w t)

  Trap-kept :
      (s : State) (w : H.World)
      → Trap H s w cmd
      → Trap H (trap_state s) (trap_world w) cmd × AtTrap (trap_state s) cmd
  unfolding trap_world trap_state post advance_tail
  Trap-kept s w t = (
    record {
      at_slot = rw unread t.at_slot;
      opcode = t.opcode;
      accepted = t.accepted;
      itself = t.itself;
      one_entry = t.one_entry;
      sq_fits = t.sq_fits;
      cq_fits = t.cq_fits;
      cq_ram = t.cq_ram;
      apart = t.apart;
    },
    (refl, rw t.one_entry),
  )
    where
      cqe : List ℕ
      cqe = encode_completion (completion_of (advance_head (new_ioq cmd)) cmd 1 0)

      slot : (cmd.metadata_addr + 0 * completion_size) % u64 ≡ cmd.metadata_addr
      slot = omega (arith, t.cq_fits)

      size : length cqe ≡ completion_size
      size = length-encode_completion _

      unread :
          H.dma_read
            (H.dma_write w ((cmd.metadata_addr + 0 * completion_size) % u64) cqe)
            cmd.data_addr
            command_size
          ≡ H.dma_read w cmd.data_addr command_size
      unread = rw slot (
          L.dma_read-dma_write_ne w cmd.metadata_addr cqe cmd.data_addr command_size
            (rw size t.cq_ram) (rw size t.apart))

  process_loop-Trap :
      (fuel tail : ℕ) (s : State) (w : H.World)
      → 1 ≤ tail
      → Trap H s w cmd
      → AtTrap s cmd
      → process_loop H fuel 1 tail s w ≡ err out_of_fuel
  unfolding process_loop
  process_loop-Trap zero tail s w h t a = refl
  process_loop-Trap (suc fuel) tail s w h t a =
      let away : s.io.sq_head == tail ≡ false = ground arith in
      let k = Trap-kept s w t in
      rw (away, process_one-Trap s w t a)
        (process_loop-Trap fuel tail (trap_state s) (trap_world w) h k.0 k.1)

  -- A CREATE_IOQ that the controller accepts, for the I/O queue itself, with one entry, the queue's own
  -- submission ring and a completion entry elsewhere in RAM: once a guest has put it in slot 0 of its I/O
  -- queue, where the head stands, and rings the doorbell with any tail that the guards let pass but 0,
  -- the handler never returns: no number of rounds is enough.
  pub process_sq-Trap :
      (fuel tail : ℕ) (s : State) (w : H.World)
      → ignores_doorbell s 1 tail ≡ false
      → 1 ≤ tail
      → Trap H s w cmd
      → AtTrap s cmd
      → process_sq H fuel 1 tail s w ≡ err out_of_fuel
  unfolding process_sq
  process_sq-Trap fuel tail s w on h t a = rw (on, process_loop-Trap fuel tail s w h t a)
