-- ===== src/Driver/Completion.antt =====
-- driver/openflash/openflash_queue.c: the completion side, openflash_blk_status,
-- openflash_drain_admin_cq, openflash_io_irq and openflash_fail_io_requests.
use openflash_controller_lab.Base.{
  ℕ, zero, suc, ◌+◌, ◌-◌, ◌*◌, ◌%◌, Bool, true, false, ◌||◌, none, some, List, [], ◌∷◌, ◌++◌, ltb,
  ◌==◌, if◌then◌else◌, bit_xor, u16, Outcome, ok, err, out_of_fuel, out_of_bounds, ◌>>=◌, get_elem?,
  set,
}
use openflash_controller_lab.Abi.Reg
use openflash_controller_lab.Abi.StatusCode
use openflash_controller_lab.Abi.Struct.{Completion, SglDesc}
use openflash_controller_lab.Driver.State.{
  BlkStatus, sts_ok, sts_notsupp, sts_ioerr, sts_target, sts_medium, Request, DriverQueue,
  Direction, Event, unmap, end_request, wake_admin, write_register, synchronize_irq,
}

unfoldable pub blk_status : ℕ → BlkStatus
blk_status status =
    if status == StatusCode.success
    then sts_ok
    else if status == StatusCode.lba_range
    then sts_target
    else if status == StatusCode.media_error || status == StatusCode.ecc_uncorrectable
    then sts_medium
    else if status == StatusCode.invalid_opcode || status == StatusCode.invalid_field
    then sts_notsupp
    else sts_ioerr

-- `OPENFLASH_CQ_HEAD_DB(qid)`
abbrev pub cq_head_db : ℕ → ℕ
cq_head_db qid = Reg.doorbell_base + qid * 8 + 4

-- `OPENFLASH_SQ_TAIL_DB(qid)`
abbrev pub sq_tail_db : ℕ → ℕ
sq_tail_db qid = Reg.doorbell_base + qid * 8

-- `(flags & OPENFLASH_CQE_PHASE) != queue->cq_phase` fails: the entry is the controller's newest.
abbrev pub is_fresh : DriverQueue → Completion → Bool
is_fresh q cqe = cqe.flags % 2 == q.cq_phase

-- `cq_head` goes on, and the phase turns over where it comes round to 0.
unfoldable pub consume : DriverQueue → DriverQueue
consume q =
    let head = ((q.cq_head + 1) % q.depth) % u16 in
    record q { cq_head = head; cq_phase = if head == 0 then bit_xor q.cq_phase 1 else q.cq_phase }

-- One entry of the admin ring. `-EIO` is the only error that is stored.
unfoldable pub take_admin : DriverQueue → Completion → DriverQueue × List Event
take_admin q cqe =
    if q.admin_pending
    then (
      if cqe.cid == q.admin_cid
          then record q {
            admin_status = cqe.status;
            admin_result = cqe.result;
            admin_error = false;
            admin_pending = false;
            admin_done = true;
          }
          else record q { admin_error = true; admin_pending = false; admin_done = true },
      wake_admin ∷ [],
    )
    else (q, [])

-- `while (request->nr_mapped)`: the segments are unmapped from the last one down. A segment that
-- the list does not hold is an access outside it.
unfoldable pub unmap_all : ℕ → List SglDesc → Direction → Outcome (List Event)
unmap_all zero sgl dir = ok []
unmap_all (suc n) sgl dir = elim (get_elem? sgl n) [
  | none ↦ err out_of_bounds
  | some desc ↦ unmap_all n sgl dir >>= λ rest. ok (unmap desc.addr desc.length dir ∷ rest)
]

-- A request that `xchg` has found: its segments are unmapped and it ends with the status.
unfoldable pub finish_request : Request → ℕ → BlkStatus → Outcome (Request × List Event)
finish_request request rq status =
    unmap_all request.nr_mapped request.sgl request.dma_dir >>= λ unmaps.
    ok (record request { rq = none; nr_mapped = 0 }, unmaps ++ (end_request rq status ∷ []))

-- A completion whose identifier names a slot; one that the slot does not await is stale.
unfoldable pub take_slot :
    DriverQueue → ℕ → Request → BlkStatus → Outcome (DriverQueue × List Event)
take_slot q slot request status = elim request.rq [
  | none ↦ ok (q, [])
  | some rq ↦ finish_request request rq status >>= λ r.
      ok (record q { requests = set q.requests slot r.0 }, r.1)
]

unfoldable pub take_at : DriverQueue → ℕ → BlkStatus → Outcome (DriverQueue × List Event)
unfolding take_slot
take_at q slot status = elim (get_elem? q.requests slot) [
  | none ↦ err out_of_bounds
  | some request ↦ take_slot q slot request status
]

-- One entry of the I/O ring.
unfoldable pub take_io : DriverQueue → Completion → Outcome (DriverQueue × List Event)
take_io q cqe =
    if cqe.cid == 0 || ltb (q.depth - 1) cqe.cid
    then ok (q, [])
    else take_at q (cqe.cid - 1) (blk_status cqe.status)

-- The `for (;;)` of both handlers over the ring `cqes`, with what is done for one entry; it counts
-- the entries taken.
unfoldable pub drain :
    (DriverQueue → Completion → Outcome (DriverQueue × List Event))
    → ℕ
    → (ℕ → Completion)
    → DriverQueue
    → ℕ
    → Outcome (DriverQueue × List Event × ℕ)
drain take_one zero cqes q completed = err out_of_fuel
drain take_one (suc fuel) cqes q completed =
    let rest =
      (take_one q (cqes q.cq_head) >>= λ t.
      drain take_one fuel cqes (consume t.0) (completed + 1) >>= λ r. ok (r.0, t.1 ++ r.1, r.2)) in
    if is_fresh q (cqes q.cq_head) then rest else ok (q, [], completed)

-- The doorbell after the loop, if any entry was taken.
abbrev pub ring_cq_head : DriverQueue × List Event × ℕ → DriverQueue × List Event × ℕ
ring_cq_head (q, events, completed) =
    if completed == 0
    then (q, events, completed)
    else (q, events ++ (write_register (cq_head_db q.qid) q.cq_head ∷ []), completed)

unfoldable pub drain_admin_cq :
    ℕ → (ℕ → Completion) → DriverQueue → Outcome (DriverQueue × List Event × ℕ)
drain_admin_cq fuel cqes q =
    drain (λ p cqe. ok (take_admin p cqe)) fuel cqes q 0 >>= λ r. ok (ring_cq_head r)

-- The last component tells IRQ_HANDLED (not 0) from IRQ_NONE (0).
unfoldable pub io_irq : ℕ → (ℕ → Completion) → DriverQueue → Outcome (DriverQueue × List Event × ℕ)
io_irq fuel cqes q = drain take_io fuel cqes q 0 >>= λ r. ok (ring_cq_head r)

-- One round of `openflash_fail_io_requests`.
unfoldable pub fail_one : Request → BlkStatus → Outcome (Request × List Event)
fail_one request status = elim request.rq [
  | none ↦ ok (request, [])
  | some rq ↦ finish_request request rq status
]

unfoldable pub fail_all : List Request → BlkStatus → Outcome (List Request × List Event)
fail_all [] status = ok ([], [])
fail_all (request ∷ requests) status = fail_one request status >>= λ r.
    fail_all requests status >>= λ rest. ok (r.0 ∷ rest.0, r.1 ++ rest.1)

unfoldable pub fail_io_requests : ℕ → DriverQueue → BlkStatus → Outcome (DriverQueue × List Event)
fail_io_requests nr_queues q status =
    if ltb nr_queues 2
    then ok (q, [])
    else (fail_all q.requests status >>= λ r.
        ok (record q { requests = r.0 }, synchronize_irq 1 ∷ r.1))
