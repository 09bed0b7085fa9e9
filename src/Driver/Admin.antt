-- ===== src/Driver/Admin.antt =====
-- driver/openflash/openflash_queue.c: admin commands and the interrupt that completes them
-- (openflash_irq, openflash_admin_command, openflash_admin_identify, openflash_create_io_queue).
use openflash_controller_lab.Base.{
  ℕ, ◌+◌, ◌*◌, ◌%◌, Bool, true, false, not, ◌||◌, List, [], ◌∷◌, ◌++◌, ◌==◌, if◌then◌else◌,
  test_bit, bit_or, u16, u32, Outcome, ok, err,
}
use openflash_controller_lab.Base
use openflash_controller_lab.Abi.Reg
use openflash_controller_lab.Abi.Opcode
use openflash_controller_lab.Abi.Struct.{Command}
use openflash_controller_lab.Driver.Errno
use openflash_controller_lab.Driver.State.{
  DriverQueue, Event, fill_slot, write_register, read_register, wait_admin, synchronize_irq,
}
use openflash_controller_lab.Driver.Completion.{drain_admin_cq, sq_tail_db}
use openflash_controller_lab.Driver.Kernel.{
  Kernel, Interrupt, did, Action, ◌>>=◌, ◌>>◌, pure, get_dev, modify, note, noted,
}

-- The last component is the handler's answer, IRQ_HANDLED or IRQ_NONE. The fuel is more than one lap.
unfoldable pub irq : Interrupt → DriverQueue → Outcome (DriverQueue × List Event × Bool)
irq i q =
    if not (test_bit i.status 0)
    then ok (q, read_register Reg.status ∷ [], false)
    else Base.◌>>=◌ (drain_admin_cq (q.depth + 1) i.cqes q)
        (λ r. ok (r.0, read_register Reg.status ∷ r.1, not (r.2 == 0)))

-- The interrupts that arrive during a wait, one after the other.
unfoldable pub irqs : List Interrupt → DriverQueue → Outcome (DriverQueue × List Event)
irqs [] q = ok (q, [])
irqs (i ∷ is) q =
    Base.◌>>=◌ (irq i q) (λ r. Base.◌>>=◌ (irqs is r.0) (λ r'. ok (r'.0, r.1 ++ r'.1)))

-- `cid = ++queue->next_cid`, once more if that is 0.
abbrev pub advance_cid : ℕ → ℕ
advance_cid next_cid = let cid = (next_cid + 1) % u16 in if cid == 0 then 1 else cid

-- The command in its slot.
abbrev pub addressed : DriverQueue → Command → Command
addressed q cmd = record cmd { qid = q.qid; cid = advance_cid q.next_cid }

-- Up to the store to the doorbell.
unfoldable pub start_admin : DriverQueue → DriverQueue
start_admin q = record q {
  next_cid = advance_cid q.next_cid;
  admin_cid = advance_cid q.next_cid;
  admin_error = false;
  admin_pending = true;
  admin_done = false;
  sq_tail = ((q.sq_tail + 1) % q.depth) % u16;
}

-- What a command comes back with: its result, or an error.
pub data Reply : Type 0 where
  result : ℕ → Reply
  failed : ℕ → Reply

-- After the wait has ended with a wake-up.
unfoldable pub reply_of : DriverQueue → Reply
reply_of q =
    if q.admin_error
    then failed Errno.eio
    else if not (q.admin_status == 0)
    then failed Errno.eio
    else result q.admin_result

-- After the wait: the completion was signalled, or the time has run out.
unfoldable pub end_wait : Bool → Action Reply
end_wait true = do dev ← get_dev; pure (reply_of dev.admin)
end_wait false = do
  modify (λ dev. record dev { admin = record dev.admin { admin_pending = false } })
  note (did (synchronize_irq 0))
  pure (failed Errno.etimedout)

abbrev pub wait_for_irqs : Outcome (DriverQueue × List Event) → Action Bool
wait_for_irqs (ok (q, events)) s =
    ok (q.admin_done, record s { dev = record s.dev { admin = q }; log = noted events s.log })
wait_for_irqs (err e) s = err e

-- `wait_for_completion_timeout`, with the interrupts that arrive before it returns.
unfoldable pub wait_for_completion : Kernel → Action Bool
wait_for_completion k s = wait_for_irqs (irqs (k.interrupts s.log) s.dev.admin) s

unfoldable pub admin_command : Kernel → Command → Action Reply
unfolding wait_for_completion end_wait
admin_command k cmd = do
  dev ← get_dev
  modify (λ d. record d { admin = start_admin d.admin })
  note (did (fill_slot dev.admin.sq_tail (addressed dev.admin cmd)))
  note (did (write_register (sq_tail_db dev.admin.qid) (start_admin dev.admin).sq_tail))
  note (did wait_admin)
  done ← wait_for_completion k
  end_wait done

-- A command that is all 0 but for its opcode.
abbrev pub empty_command : ℕ → Command
empty_command opcode = record {
  opcode = opcode;
  flags = 0;
  qid = 0;
  cid = 0;
  reserved0 = 0;
  lba = 0;
  nblocks = 0;
  control = 0;
  data_addr = 0;
  metadata_addr = 0;
  user_data = 0;
  reserved1_0 = 0;
  reserved1_1 = 0;
}

unfoldable pub take_capacity : Reply → Action ℕ
take_capacity (failed e) = pure e
take_capacity (result capacity) =
    if capacity == 0
    then pure Errno.enodev
    else (do modify (λ dev. record dev { capacity_blocks = capacity }); pure 0)

unfoldable pub admin_identify : Kernel → Action ℕ
unfolding admin_command take_capacity
admin_identify k = do reply ← admin_command k (empty_command Opcode.identify); take_capacity reply

-- `OPENFLASH_CREATE_IOQ_CONTROL(queue->qid, 1)` and the rest of the command.
abbrev pub create_command : DriverQueue → Command
create_command q = record (empty_command Opcode.create_ioq) {
  nblocks = q.depth % u32;
  control = bit_or (1 * 65536) (q.qid % u16);
  data_addr = q.sq_dma;
  metadata_addr = q.cq_dma;
}

unfoldable pub created : ℕ → Reply → ℕ
created qid (failed e) = e
created qid (result r) = if r == qid then 0 else Errno.eproto

unfoldable pub create_io_queue : Kernel → Action ℕ
unfolding admin_command
create_io_queue k = do
  dev ← get_dev
  reply ← admin_command k (create_command dev.io)
  pure (created dev.io.qid reply)
