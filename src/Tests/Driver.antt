-- ===== src/Tests/Driver.antt =====
-- The driver's theorems at concrete inputs: an I/O queue of depth 2, with one slot.
use openflash_controller_lab.Base.{
  ℕ, ◌≡◌, refl, true, false, none, some, List, [], ◌∷◌, ok, err, ◌>>=◌, replicate, arith,
  out_of_bounds, ◌==◌, if◌then◌else◌, ◌⊎◌, inl, inr, get_elem?,
}
use openflash_controller_lab.Abi.Struct.{Command, Completion, SglDesc, has_fua, has_sgl}
use openflash_controller_lab.Driver.State.{
  sts_ok, sts_ioerr, Request, DriverQueue, to_device, Event, fill_slot, op_write,
}
use openflash_controller_lab.Driver.Completion.{
  take_io, take_admin, io_irq, drain_admin_cq, ring_cq_head, fail_io_requests,
}
use openflash_controller_lab.Driver.Request.{BlkRequest, Queued, opcode_of, misaligned, queue_rq}
use openflash_controller_lab.Driver.Mapped.{mapped}
use openflash_controller_lab.Driver.Drain.{Tagged, StandsAt, entries, serve, with_count}
use openflash_controller_lab.Driver.Handlers.{io_irq-Tagged, drain_admin_cq-Tagged}
use openflash_controller_lab.Driver.Slots.{IsValid, io_irq-Returns}
use openflash_controller_lab.Driver.Accepted.{Accepts}
use openflash_controller_lab.Driver.Fua.{queue_rq-has_fua}
use openflash_controller_lab.Driver.Complete.{RoundTrip, queue_rq-take_io}
use openflash_controller_lab.Driver.Overrun.{Looped, queue_rq-overrun}
use openflash_controller_lab.Driver.Refused.{failing, queue_rq-unmaps, queue_rq-unmaps_fua}
use openflash_controller_lab.Driver.Accepted.{with_filled}
use openflash_controller_lab.Driver.Mapped.{unmaps, descriptors}
use openflash_controller_lab.Driver.State.{sts_resource, sts_notsupp, synchronize_irq}
use openflash_controller_lab.Driver.Request.{base_command}
use openflash_controller_lab.Driver.Fail.{failures, fail_io_requests-frees}

-- The controller's first completion, for the request with tag 0, in a ring that was zeroed.
abbrev completion : ℕ → Completion
completion flags = record {
  result = 0;
  user_data = 0;
  sq_head = 1;
  cid = 1;
  status = 0;
  flags = flags;
}

abbrev ring : ℕ → Completion
ring j = if j == 0 then completion 1 else completion 0

abbrev list : List SglDesc
list = replicate 16 (record { addr = 8192; length = 4096; reserved = 0 })

abbrev pub idle_slot : Request
idle_slot = record { rq = none; sgl = list; sgl_dma = 65536; nr_mapped = 0; dma_dir = to_device }

abbrev pub busy_slot : Request
busy_slot = record idle_slot { rq = some 7; nr_mapped = 1 }

abbrev pub queue : Request → DriverQueue
queue slot = record {
  qid = 1;
  depth = 2;
  sq_tail = 0;
  cq_head = 0;
  cq_phase = 1;
  sq_dma = 0x10000;
  cq_dma = 0x20000;
  next_cid = 1;
  requests = slot ∷ [];
  admin_cid = 1;
  admin_status = 0;
  admin_result = 0;
  admin_error = false;
  admin_pending = true;
  admin_done = false;
}

ring-Tagged : Tagged 2 ring 1 3
ring-Tagged j from below =
    let first_or_second : (j ≡ 1) ⊎ (j ≡ 2) = ground arith in
    elim first_or_second [ inl first ↦ rw first refl | inr second ↦ rw second refl ]

pub queue-StandsAt : StandsAt 2 (queue busy_slot) 2
queue-StandsAt = record { depth_lem = refl; at_head = refl; at_phase = refl }

idle-IsValid : IsValid (queue idle_slot)
idle-IsValid = record { slots = refl; fits = (omega arith, tt) }

queue-IsValid : IsValid (queue busy_slot)
queue-IsValid = record { slots = refl; fits = (omega arith, tt) }

io_irq-Tagged_example : io_irq 2 ring (queue busy_slot) ≡ (
    serve take_io (queue busy_slot) (entries 2 ring 2 1) >>= λ r.
    ok (ring_cq_head (with_count 1 r)))
io_irq-Tagged_example =
    io_irq-Tagged 2 ring 1 2 1 2 (queue busy_slot) (omega arith) (omega arith) (omega arith)
      (omega arith) (omega arith) (omega arith) ring-Tagged queue-StandsAt

io_irq-Returns_example :
    (r : DriverQueue × List Event × ℕ) × (io_irq 2 ring (queue busy_slot) ≡ ok r) × IsValid r.0
io_irq-Returns_example =
    io_irq-Returns 2 ring 1 2 1 2 (queue busy_slot) (omega arith) (omega arith) (omega arith)
      (omega arith) (omega arith) (omega arith) ring-Tagged queue-StandsAt queue-IsValid

drain_admin_cq-Tagged_example : drain_admin_cq 2 ring (queue busy_slot) ≡ (
    serve (λ p cqe. ok (take_admin p cqe)) (queue busy_slot) (entries 2 ring 2 1) >>= λ r.
    ok (ring_cq_head (with_count 1 r)))
drain_admin_cq-Tagged_example =
    drain_admin_cq-Tagged 2 ring 1 2 1 2 (queue busy_slot) (omega arith) (omega arith) (omega arith)
      (omega arith) (omega arith) (omega arith) ring-Tagged queue-StandsAt

-- A write of one block with FUA, from so many segments of one page.
abbrev write : ℕ → BlkRequest
write n = record {
  number = 7;
  pos = 8;
  bytes = 4096;
  tag = 0;
  op = op_write;
  fua = true;
  nr_phys_segments = 1;
  segments = mapped (replicate n (4096, 8192));
}

write-Accepts :
    Accepts 2 (queue idle_slot) (write 1) idle_slot 2 to_device (replicate 1 (4096, 8192))
unfolding opcode_of misaligned
write-Accepts = record {
  aligned = refl;
  fua_writes = refl;
  fua_offered = refl;
  at_tag = refl;
  free = refl;
  transfers = refl;
  not_empty = refl;
  few = omega arith;
  addresses = refl;
  some_segments = omega arith;
  room = omega arith;
}

queue_rq-has_fua_example :
    (out : Queued) × (cmd : Command) × (rest : List Event) × (queue_rq 2 (queue idle_slot) (write 1)
      ≡ ok out)
    × (out.status ≡ sts_ok)
    × (out.events ≡ fill_slot 0 cmd ∷ rest)
    × (has_fua cmd ≡ false)
    × (has_sgl cmd ≡ true)
queue_rq-has_fua_example =
    queue_rq-has_fua 2 (queue idle_slot) (write 1) idle_slot 2 to_device (replicate 1 (4096, 8192))
      write-Accepts

queue_rq-take_io_example :
    RoundTrip 2 (queue idle_slot) (write 1) to_device (replicate 1 (4096, 8192)) (completion 1)
queue_rq-take_io_example =
    queue_rq-take_io 2 (queue idle_slot) (write 1) idle_slot 2 to_device (replicate 1 (4096, 8192))
      (completion 1) write-Accepts (omega arith) (omega arith) (omega arith) refl

write-Looped :
    Looped (queue idle_slot) (write 17) idle_slot 2 to_device (mapped (replicate 17 (4096, 8192)))
unfolding opcode_of misaligned
write-Looped = record {
  aligned = refl;
  fua_writes = refl;
  at_tag = refl;
  transfers = refl;
  not_empty = refl;
  few = omega arith;
  addresses = refl;
}

queue_rq-overrun_example : queue_rq 2 (queue idle_slot) (write 17) ≡ err out_of_bounds
queue_rq-overrun_example =
    queue_rq-overrun 2 (queue idle_slot) (write 17) idle_slot 2 to_device
      (replicate 17 (4096, 8192)) write-Looped (omega arith)

-- Two segments with an address, and a third without.
abbrev pages : List (ℕ × ℕ)
pages = replicate 2 (4096, 8192)

abbrev failing_write : BlkRequest
failing_write = record (write 0) { segments = failing pages 4096 [] }

failing_write-Looped :
    Looped (queue idle_slot) failing_write idle_slot 2 to_device (failing pages 4096 [])
unfolding opcode_of misaligned
failing_write-Looped = record {
  aligned = refl;
  fua_writes = refl;
  at_tag = refl;
  transfers = refl;
  not_empty = refl;
  few = omega arith;
  addresses = refl;
}

queue_rq-unmaps_example :
    queue_rq 2 (queue idle_slot) failing_write
    ≡ ok (record {
      status = sts_resource;
      queue = with_filled (queue idle_slot) failing_write idle_slot pages;
      events = unmaps to_device (descriptors pages);
    })
queue_rq-unmaps_example =
    queue_rq-unmaps 2 (queue idle_slot) failing_write idle_slot 2 to_device pages 4096 []
      failing_write-Looped (omega arith)

refused_write-Looped : Looped (queue idle_slot) (write 2) idle_slot 2 to_device (mapped pages)
unfolding opcode_of misaligned
refused_write-Looped = record {
  aligned = refl;
  fua_writes = refl;
  at_tag = refl;
  transfers = refl;
  not_empty = refl;
  few = omega arith;
  addresses = refl;
}

queue_rq-unmaps_fua_example :
    queue_rq 1 (queue idle_slot) (write 2)
    ≡ ok (record {
      status = sts_notsupp;
      queue = with_filled (queue idle_slot) (write 2) idle_slot pages;
      events =
          fill_slot 0 (base_command (queue idle_slot) (write 2) 2)
          ∷ unmaps to_device (descriptors pages);
    })
queue_rq-unmaps_fua_example =
    queue_rq-unmaps_fua 1 (queue idle_slot) (write 2) idle_slot 2 to_device pages
      refused_write-Looped (omega arith) refl refl refl

fail_io_requests-frees_example :
    (done : DriverQueue) × (fail_io_requests 2 (queue busy_slot) sts_ioerr
      ≡ ok (done, synchronize_irq 1 ∷ failures sts_ioerr (busy_slot ∷ [])))
    × ((i : ℕ) (slot : Request) → get_elem? done.requests i ≡ some slot → slot.rq ≡ none)
fail_io_requests-frees_example =
    fail_io_requests-frees 2 (queue busy_slot) sts_ioerr (omega arith) queue-IsValid
