-- ===== src/Driver/Complete.antt =====
-- driver/openflash/openflash_core.c and openflash_queue.c: a request on its way from
-- openflash_queue_rq to the completion that openflash_io_irq takes for it.
use openflash_controller_lab.Base.{
  ℕ, ◌+◌, ◌-◌, ◌<◌, ◌≤◌, ◌%◌, ◌≡◌, ◌∙◌, sym, refl, ap, false, ◌||◌, Option, none, some, List, [],
  ◌∷◌, ◌++◌, Outcome, ok, err, ◌>>=◌, get_elem?, set, length, take, length-set, get_elem?-set_self,
  arith, ltb, ◌==◌, u16, out_of_bounds,
}
use openflash_controller_lab.Abi.Struct.{Completion}
use openflash_controller_lab.Driver.State.{
  BlkStatus, sts_ok, Request, DriverQueue, Direction, Event, end_request,
}
use openflash_controller_lab.Driver.Completion.{
  blk_status, finish_request, take_slot, take_at, take_io,
}
use openflash_controller_lab.Driver.Request.{BlkRequest, Queued, request_cid, publish, queue_rq}
use openflash_controller_lab.Driver.Mapped.{
  unmaps, unmap_all-returns, descriptors, stored, length-stored, take-stored,
}
use openflash_controller_lab.Driver.Accepted.{Accepts, filled, at_work, queue_rq-Accepts}

-- The events for a request whose mapped segments its list holds.
pub finish_request-returns :
    (request : Request) (rq : ℕ) (status : BlkStatus)
    → request.nr_mapped ≤ length request.sgl
    → finish_request request rq status
      ≡ ok (
        record request { rq = none; nr_mapped = 0 },
        unmaps request.dma_dir (take request.nr_mapped request.sgl) ++ (end_request rq status ∷ []),
      )
unfolding finish_request
finish_request-returns request rq status fits =
    ap
      (λ (x : Outcome (List Event)). x >>= λ events.
        ok (record request { rq = none; nr_mapped = 0 }, events ++ (end_request rq status ∷ [])))
      (unmap_all-returns request.nr_mapped request.sgl request.dma_dir fits)

-- The queue with a slot given back, and the events of a request that ends.
abbrev pub freed : DriverQueue → ℕ → Request → DriverQueue
freed q slot request = record q {
  requests = set q.requests slot (record request { rq = none; nr_mapped = 0 });
}

abbrev pub ending : Request → ℕ → BlkStatus → List Event
ending request rq status =
    unmaps request.dma_dir (take request.nr_mapped request.sgl) ++ (end_request rq status ∷ [])

module _ (q : DriverQueue) (slot rq : ℕ) (request : Request)
    (found : get_elem? q.requests slot ≡ some request) (waits : request.rq ≡ some rq)
    (fits : request.nr_mapped ≤ length request.sgl) where
  take_slot-returns :
      (status : BlkStatus)
      → take_slot q slot request status ≡ ok (freed q slot request, ending request rq status)
  unfolding take_slot
  take_slot-returns status =
      ap
        (λ (o : Option ℕ). elim o [
          | none ↦ ok (q, [])
          | some rq' ↦ finish_request request rq' status >>= λ r.
              ok (record q { requests = set q.requests slot r.0 }, r.1)
        ])
        waits
      ∙ ap
          (λ (x : Outcome (Request × List Event)).
            x >>= λ r. ok (record q { requests = set q.requests slot r.0 }, r.1))
          (finish_request-returns request rq status fits)

  pub take_at-returns :
      (status : BlkStatus)
      → take_at q slot status ≡ ok (freed q slot request, ending request rq status)
  unfolding take_at
  take_at-returns status =
      ap
        (λ (o : Option Request). elim o [
          | none ↦ err out_of_bounds
          | some request' ↦ take_slot q slot request' status
        ])
        found
      ∙ take_slot-returns status

  -- A completion whose identifier names the slot.
  pub take_io-returns :
      (c : Completion)
      → c.cid ≡ slot + 1
      → slot + 1 < q.depth
      → take_io q c ≡ ok (freed q slot request, ending request rq (blk_status c.status))
  unfolding take_io
  take_io-returns c cid low =
      let named : (c.cid == 0 || ltb (q.depth - 1) c.cid) ≡ false = ground (arith, cid) in
      let at_slot : c.cid - 1 ≡ slot = omega (arith, cid) in
      rw (named, at_slot) (take_at-returns (blk_status c.status))

-- What a completion with the request's identifier does once `queue_rq` has answered.
abbrev pub RoundTrip : ℕ → DriverQueue → BlkRequest → Direction → List (ℕ × ℕ) → Completion → Type 0
RoundTrip capabilities q rq dir segments c =
    (out : Queued) × (done : DriverQueue) × (slot : Request) × (queue_rq capabilities q rq ≡ ok out)
    × (out.status ≡ sts_ok)
    × (take_io out.queue c
        ≡ ok (
          done,
          unmaps dir (descriptors segments) ++ (end_request rq.number (blk_status c.status) ∷ []),
        ))
    × (get_elem? done.requests rq.tag ≡ some slot)
    × (slot.rq ≡ none)
    × (slot.nr_mapped ≡ 0)

module _ (capabilities : ℕ) (q : DriverQueue) (rq : BlkRequest) (request : Request) (opcode : ℕ)
    (dir : Direction) (segments : List (ℕ × ℕ)) where
  -- Once an accepted request is queued, the completion that carries its identifier unmaps exactly
  -- the segments that were mapped for it, the last one first and in its direction, ends exactly that
  -- request, with the status that the completion's status stands for, and leaves its slot free with
  -- nothing mapped. The tag is below the number of slots, which is one less than the depth.
  pub queue_rq-take_io :
      (c : Completion)
      → Accepts capabilities q rq request opcode dir segments
      → rq.tag < length q.requests
      → rq.tag + 1 < q.depth
      → q.depth < u16
      → c.cid ≡ request_cid rq
      → RoundTrip capabilities q rq dir segments c
  unfolding publish
  queue_rq-take_io c a held low small cid =
      let answer = queue_rq-Accepts capabilities q rq request opcode dir segments a in
      let work : Request = record (at_work request segments dir) { rq = some rq.number } in
      let before = set q.requests rq.tag (filled request segments) in
      let before_held : rq.tag < length before =
        omega (arith, length-set q.requests rq.tag (filled request segments), held) in
      let after_held : rq.tag < length (set before rq.tag work) =
        omega (arith, length-set before rq.tag work, before_held) in
      let queue = record q {
        requests = set before rq.tag work;
        sq_tail = ((q.sq_tail + 1) % q.depth) % u16;
      } in
      let stores = length-stored segments 0 request.sgl in
      let fits : length segments ≤ length (stored segments 0 request.sgl) =
        omega (arith, stores, a.room) in
      let from_zero : 0 + length segments ≡ length segments = omega arith in
      let took : take (length segments) (stored segments 0 request.sgl) ≡ descriptors segments =
        ap (λ n. take n (stored segments 0 request.sgl)) (sym from_zero)
        ∙ take-stored segments 0 request.sgl (omega (arith, a.room)) in
      let identified : c.cid ≡ rq.tag + 1 = omega (arith, cid) in
      let taken =
        take_io-returns queue rq.tag rq.number work
          (get_elem?-set_self before rq.tag work before_held) refl fits c identified low in
      (
        _,
        freed queue rq.tag work,
        _,
        answer,
        refl,
        taken
            ∙ ap
                (λ descs. ok (
                  freed queue rq.tag work,
                  unmaps dir descs ++ (end_request rq.number (blk_status c.status) ∷ []),
                ))
                took,
        get_elem?-set_self (set before rq.tag work) rq.tag
            (record work { rq = none; nr_mapped = 0 }) after_held,
        refl,
        refl,
      )
