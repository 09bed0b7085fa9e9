-- ===== src/Device/Doorbell.antt =====
-- `openflash_process_sq`: what a submission doorbell starts.
use openflash_controller_lab.Base.{
  ℕ, zero, suc, ◌+◌, ◌*◌, ◌%◌, Bool, not, ◌||◌, leb, ◌==◌, if◌then◌else◌, bit_xor, test_bit, u16,
  u64, Outcome, ok, err, out_of_fuel, ◌>>=◌,
}
use openflash_controller_lab.Abi.Struct.{
  Command, Completion, command_size, completion_size, decode_command, encode_completion,
}
use openflash_controller_lab.Platform.{Host}
use openflash_controller_lab.Device.State.{State, Queue, max_queues, get_queue, set_queue}
use openflash_controller_lab.Device.Execute.{execute}
use openflash_controller_lab.Device.Execute

-- `queue->sq_head = (queue->sq_head + 1) % queue->depth`, on a 16-bit field.
abbrev pub advance_head : Queue → Queue
advance_head q = record q { sq_head = ((q.sq_head + 1) % q.depth) % u16 }

-- `cq_tail` goes on, and the phase turns over where it comes round to 0.
unfoldable pub advance_tail : Queue → Queue
advance_tail q =
    let tail = ((q.cq_tail + 1) % q.depth) % u16 in
    record q { cq_tail = tail; cq_phase = if tail == 0 then bit_xor q.cq_phase 1 else q.cq_phase }

abbrev pub completion_of : Queue → Command → ℕ → ℕ → Completion
completion_of q cmd result status = record {
  result = result;
  user_data = cmd.user_data;
  sq_head = q.sq_head;
  cid = cmd.cid;
  status = status;
  flags = q.cq_phase;
}

-- The guards before the loop.
unfoldable pub ignores_doorbell : State → ℕ → ℕ → Bool
ignores_doorbell s qid new_tail =
    not (test_bit s.status 0)
    || not (get_queue s qid).enabled
    || (get_queue s qid).depth == 0
    || leb (get_queue s qid).depth new_tail

module _ (H : Host) where
  unfoldable pub fetch : H.World → Queue → Command
  fetch w q =
      decode_command (H.dma_read w ((q.sq_addr + q.sq_head * command_size) % u64) command_size)

  unfoldable pub post : H.World → Queue → Completion → H.World
  post w q cqe =
      H.dma_write w ((q.cq_addr + q.cq_tail * completion_size) % u64) (encode_completion cqe)

  -- The body of the loop after `openflash_execute`. `queue` points into the state that the
  -- command has left.
  unfoldable pub complete : ℕ → Command → Execute.Executed H → State × H.World
  complete qid cmd e =
      let q = advance_head (get_queue e.state qid) in
      (
        set_queue e.state qid (advance_tail q),
        post e.world q (completion_of q cmd e.result e.status),
      )

  unfoldable pub process_one : ℕ → State → H.World → Outcome (State × H.World)
  process_one qid s w =
      let cmd = fetch w (get_queue s qid) in execute H s w cmd >>= λ e. ok (complete qid cmd e)

  -- `while (queue->sq_head != new_tail)`.
  unfoldable pub process_loop : ℕ → ℕ → ℕ → State → H.World → Outcome (State × H.World)
  process_loop zero qid new_tail s w = err out_of_fuel
  process_loop (suc fuel) qid new_tail s w =
      let rest = (process_one qid s w >>= λ r. process_loop fuel qid new_tail r.0 r.1) in
      if (get_queue s qid).sq_head == new_tail then ok (s, w) else rest

  unfoldable pub interrupt : ℕ → State → H.World → H.World
  interrupt qid s w = if H.msix_enabled w then H.msix_notify w (get_queue s qid).vector else w

  unfoldable pub process_sq : ℕ → ℕ → ℕ → State → H.World → Outcome (State × H.World)
  process_sq fuel qid new_tail s w =
      if leb max_queues qid
      then ok (s, w)
      else if ignores_doorbell s qid new_tail
      then ok (s, w)
      else (process_loop fuel qid new_tail s w >>= λ r. ok (r.0, interrupt qid r.0 r.1))
