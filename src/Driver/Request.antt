-- ===== src/Driver/Request.antt =====
-- driver/openflash/openflash_core.c: openflash_queue_rq, from a block request to a command.
use openflash_controller_lab.Base.{
  ℕ, ◌+◌, ◌/◌, ◌%◌, Bool, true, false, not, ◌||◌, ◌&&◌, Option, none, some, List, [], ◌∷◌, ◌++◌,
  ltb, leb, ◌==◌, if◌then◌else◌, test_bit, bit_or, u16, u32, Outcome, ok, err, out_of_bounds, ◌>>=◌,
  get_elem?, set, length,
}
use openflash_controller_lab.Abi.Opcode
use openflash_controller_lab.Abi.Struct.{Command, SglDesc, max_sgl_entries}
use openflash_controller_lab.Device.State.{block_size}
use openflash_controller_lab.Driver.State.{
  BlkStatus, sts_ok, sts_notsupp, sts_ioerr, sts_resource, Request, DriverQueue, Direction,
  to_device, from_device, ReqOp, op_read, op_write, op_flush, op_discard, op_other, Event,
  fill_slot, start_request, write_register, sectors_per_block,
}
use openflash_controller_lab.Driver.Completion.{unmap_all, sq_tail_db}

-- `struct request` as the handler sees it. A segment is its length and what `dma_map_bvec` answers
-- for it, none for a mapping error.
pub record BlkRequest : Type 0 where
  pub number : ℕ
  pub pos : ℕ
  pub bytes : ℕ
  pub tag : ℕ
  pub op : ReqOp
  pub fua : Bool
  pub nr_phys_segments : ℕ
  pub segments : List (ℕ × Option ℕ)

-- Status, queue and what was asked of the kernel.
pub record Queued : Type 0 where
  pub status : BlkStatus
  pub queue : DriverQueue
  pub events : List Event

abbrev pub refuse : BlkStatus → DriverQueue → Outcome Queued
refuse status q = ok (record { status = status; queue = q; events = [] })

abbrev pub request_cid : BlkRequest → ℕ
request_cid rq = (rq.tag + 1) % u16

-- `switch (req_op(rq))`: the opcode, and the direction of a transfer.
unfoldable pub opcode_of : ReqOp → Option (ℕ × Option Direction)
opcode_of op_read = some (Opcode.read, some from_device)
opcode_of op_write = some (Opcode.write, some to_device)
opcode_of op_flush = some (Opcode.flush, none)
opcode_of op_discard = some (Opcode.discard, none)
opcode_of op_other = none

abbrev pub is_write : ReqOp → Bool
is_write op_write = true
is_write _ = false

-- The first guard: alignment, and a tag outside the queue.
unfoldable pub misaligned : DriverQueue → BlkRequest → Bool
misaligned q rq =
    not (rq.pos % sectors_per_block == 0)
    || not (rq.bytes % block_size == 0)
    || leb q.depth (request_cid rq)

-- `rq_for_each_segment`: the list, how many entries are mapped, and whether all were. A store past
-- the list's last entry is an access outside it.
unfoldable pub map_segments :
    List (ℕ × Option ℕ) → ℕ → List SglDesc → Outcome (Bool × ℕ × List SglDesc)
map_segments [] mapped sgl = ok (true, mapped, sgl)
map_segments ((len, none) ∷ segments) mapped sgl = ok (false, mapped, sgl)
map_segments ((len, some dma) ∷ segments) mapped sgl =
    let rest =
      map_segments segments (mapped + 1)
        (set sgl mapped (record { addr = dma; length = len; reserved = 0 })) in
    if ltb mapped (length sgl) then rest else err out_of_bounds

-- `while (mapped)`: back out of the mappings.
abbrev pub back_out :
    BlkStatus → DriverQueue → List Event → ℕ → List SglDesc → Direction → Outcome Queued
back_out status q events mapped sgl dir = unmap_all mapped sgl dir >>= λ unmaps.
    ok (record { status = status; queue = q; events = events ++ unmaps })

-- The command before FUA and the list are looked at.
abbrev pub base_command : DriverQueue → BlkRequest → ℕ → Command
base_command q rq opcode = record {
  opcode = opcode;
  flags = 0;
  qid = q.qid;
  cid = request_cid rq;
  reserved0 = 0;
  lba = rq.pos / sectors_per_block;
  nblocks = (rq.bytes / block_size) % u32;
  control = 0;
  data_addr = 0;
  metadata_addr = 0;
  user_data = 0;
  reserved1_0 = 0;
  reserved1_1 = 0;
}

-- `cmd->flags |= OPENFLASH_CMD_F_FUA`
abbrev pub with_fua : Bool → Command → Command
with_fua fua cmd = if fua then record cmd { flags = bit_or cmd.flags 1 } else cmd

-- `if (mapped)`: the flags are assigned, not joined.
unfoldable pub with_list : ℕ → ℕ → Command → Command
with_list mapped sgl_dma cmd =
    if mapped == 0 then cmd else record cmd { flags = 2; control = mapped; data_addr = sgl_dma }

abbrev pub final_command : DriverQueue → BlkRequest → ℕ → ℕ → ℕ → Command
final_command q rq opcode mapped sgl_dma =
    with_list mapped sgl_dma (with_fua rq.fua (base_command q rq opcode))

-- The end of the handler: the request is remembered and the tail is rung.
unfoldable pub publish : DriverQueue → BlkRequest → Request → Command → Outcome Queued
publish q rq request cmd =
    let tail = ((q.sq_tail + 1) % q.depth) % u16 in
    ok (record {
      status = sts_ok;
      queue = record q {
        requests = set q.requests rq.tag (record request { rq = some rq.number });
        sq_tail = tail;
      };
      events =
          fill_slot q.sq_tail cmd
          ∷ start_request rq.number
          ∷ write_register (sq_tail_db q.qid) tail
          ∷ [];
    })

-- From the label `submit` on. `has_cap` is the capability FUA.
unfoldable pub submit :
    Bool → DriverQueue → BlkRequest → Request → ℕ → ℕ → Direction → Outcome Queued
submit has_cap q rq request opcode mapped dir = elim request.rq [
  | some busy ↦ back_out sts_resource q [] mapped request.sgl dir
  | none ↦
      if rq.fua && not has_cap
      then back_out sts_notsupp q (fill_slot q.sq_tail (base_command q rq opcode) ∷ []) mapped
          request.sgl dir
      else publish q rq
          (record request {
            nr_mapped = mapped;
            dma_dir = if mapped == 0 then request.dma_dir else dir;
          })
          (final_command q rq opcode mapped request.sgl_dma)
]

-- After `rq_for_each_segment`: on to `submit`, or to the label `unmap`.
unfoldable pub submit_mapped :
    Bool
    → DriverQueue
    → BlkRequest
    → Request
    → ℕ
    → Direction
    → Bool × ℕ × List SglDesc
    → Outcome Queued
unfolding submit
submit_mapped has_cap q rq request opcode dir (done, mapped, sgl) =
    let q' = record q { requests = set q.requests rq.tag (record request { sgl = sgl }) } in
    if done
    then submit has_cap q' rq (record request { sgl = sgl }) opcode mapped dir
    else back_out sts_resource q' [] mapped sgl dir

-- The two kinds of request: with a transfer, or straight to `submit` with nothing mapped.
unfoldable pub dispatch :
    Bool → DriverQueue → BlkRequest → Request → ℕ → Option Direction → Outcome Queued
unfolding submit
dispatch has_cap q rq request opcode none = submit has_cap q rq request opcode 0 request.dma_dir
dispatch has_cap q rq request opcode (some dir) =
    if rq.bytes == 0 || ltb max_sgl_entries rq.nr_phys_segments
    then refuse sts_ioerr q
    else (map_segments rq.segments 0 request.sgl >>= λ m.
        submit_mapped has_cap q rq request opcode dir m)

unfoldable pub queue_rq : ℕ → DriverQueue → BlkRequest → Outcome Queued
queue_rq capabilities q rq =
    if misaligned q rq
    then refuse sts_ioerr q
    else if rq.fua && not (is_write rq.op)
    then refuse sts_notsupp q
    else elim (get_elem? q.requests rq.tag) [
      | none ↦ err out_of_bounds
      | some request ↦ elim (opcode_of rq.op) [
        | none ↦ refuse sts_notsupp q
        | some (opcode, dir) ↦ dispatch (test_bit capabilities 1) q rq request opcode dir
      ]
    ]
