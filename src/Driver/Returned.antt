-- ===== src/Driver/Returned.antt =====
-- driver/openflash/openflash_core.c, openflash_queue_rq: requests that the slot's list has room for.
use openflash_controller_lab.Base.{
  ℕ, ◌+◌, ◌≤◌, ◌≡◌, inl, inr, Bool, true, false, not, Bool-cases, ◌||◌, ◌&&◌, arith, Option, none,
  some, List, [], ◌∷◌, ltb, ◌==◌, if◌then◌else◌, test_bit, get_elem?, set, length, length-set,
  Outcome, Succeeds, Succeeds-bind, Succeeds-of-Gives,
}
use openflash_controller_lab.Abi.Struct.{SglDesc, max_sgl_entries}
use openflash_controller_lab.Driver.State.{
  BlkStatus, sts_resource, sts_notsupp, Request, DriverQueue, Direction, Event, fill_slot,
}
use openflash_controller_lab.Driver.Request.{
  BlkRequest, Queued, opcode_of, is_write, misaligned, map_segments, back_out, base_command,
  final_command, publish, submit, submit_mapped, dispatch, queue_rq, refuse,
}
use openflash_controller_lab.Driver.Mapped.{unmap_all-returns}
use openflash_controller_lab.Driver.Kernel.{Resource}
use openflash_controller_lab.Driver.Io.{IsSafe}
use openflash_controller_lab.Driver.Queued.{queue_rq-IsSafe}

map_segments-Succeeds :
    (segments : List (ℕ × Option ℕ)) (n : ℕ) (sgl : List SglDesc)
    → n + length segments ≤ length sgl
    → Succeeds (λ m. m.1 ≤ length m.2) (map_segments segments n sgl)
unfolding map_segments
map_segments-Succeeds [] n sgl h = omega arith
map_segments-Succeeds ((len, none) ∷ segments) n sgl h = omega arith
map_segments-Succeeds ((len, some dma) ∷ segments) n sgl h =
    let desc : SglDesc = record { addr = dma; length = len; reserved = 0 } in
    let inside : ltb n (length sgl) ≡ true = ground arith in
    rw inside (
      map_segments-Succeeds segments (n + 1) (set sgl n desc)
        (omega (arith, length-set sgl n desc)))

module _ (rq : BlkRequest) where
  -- There is an answer.
  abbrev Answered : Outcome Queued → Type 0
  Answered = Succeeds (λ out. Unit {0})

  back_out-Answered :
      (status : BlkStatus) (q : DriverQueue) (events : List Event) (n : ℕ) (sgl : List SglDesc)
      (dir : Direction)
      → n ≤ length sgl
      → Answered (back_out status q events n sgl dir)
  back_out-Answered status q events n sgl dir fit = rw (unmap_all-returns n sgl dir fit) tt

  submit-Answered :
      (has_cap : Bool) (q : DriverQueue) (r : Request) (opcode n : ℕ) (dir : Direction)
      → n ≤ length r.sgl
      → Answered (submit has_cap q rq r opcode n dir)
  unfolding submit publish
  submit-Answered has_cap q r opcode n dir fit =
      let slot = record r { nr_mapped = n; dma_dir = if n == 0 then r.dma_dir else dir } in
      let first = fill_slot q.sq_tail (base_command q rq opcode) ∷ [] in
      elim r.rq
        as (λ o. Answered (elim o [
          | some busy ↦ back_out sts_resource q [] n r.sgl dir
          | none ↦
              if rq.fua && not has_cap
              then back_out sts_notsupp q first n r.sgl dir
              else publish q rq slot (final_command q rq opcode n r.sgl_dma)
        ])) [
          | some busy ↦ back_out-Answered sts_resource q [] n r.sgl dir fit
          | none ↦ elim (Bool-cases (rq.fua && not has_cap)) [
            | inl refused ↦ rw refused (back_out-Answered sts_notsupp q first n r.sgl dir fit)
            | inr goes_on ↦ rw goes_on tt
          ]
        ]

  submit_mapped-Answered :
      (has_cap : Bool) (q : DriverQueue) (r : Request) (opcode : ℕ) (dir : Direction)
      (m : Bool × ℕ × List SglDesc)
      → m.1 ≤ length m.2
      → Answered (submit_mapped has_cap q rq r opcode dir m)
  unfolding submit_mapped
  submit_mapped-Answered has_cap q r opcode dir (true, n, sgl) fit =
      let slot = record r { sgl = sgl } in
      submit-Answered has_cap (record q { requests = set q.requests rq.tag slot }) slot opcode n dir
        fit
  submit_mapped-Answered has_cap q r opcode dir (false, n, sgl) fit =
      let slot = record r { sgl = sgl } in
      back_out-Answered sts_resource (record q { requests = set q.requests rq.tag slot }) [] n sgl
        dir fit

  dispatch-Answered :
      (has_cap : Bool) (q : DriverQueue) (r : Request) (opcode : ℕ) (dir : Option Direction)
      → length rq.segments ≤ length r.sgl
      → Answered (dispatch has_cap q rq r opcode dir)
  unfolding dispatch
  dispatch-Answered has_cap q r opcode none room =
      submit-Answered has_cap q r opcode 0 r.dma_dir (omega arith)
  dispatch-Answered has_cap q r opcode (some dir) room =
      elim (Bool-cases (rq.bytes == 0 || ltb max_sgl_entries rq.nr_phys_segments)) [
        | inl refused ↦ rw refused tt
        | inr goes_on ↦ rw goes_on (
            Succeeds-bind (λ m. m.1 ≤ length m.2) (λ out. Unit {0})
              (map_segments rq.segments 0 r.sgl) _
              (map_segments-Succeeds rq.segments 0 r.sgl (omega (arith, room)))
              (λ m fit. submit_mapped-Answered has_cap q r opcode dir m fit))
      ]

  by_opcode :
      (capabilities : ℕ) (q : DriverQueue) (r : Request) (o : Option (ℕ × Option Direction))
      → length rq.segments ≤ length r.sgl
      → Answered (elim o [
        | none ↦ refuse sts_notsupp q
        | some (opcode, dir) ↦ dispatch (test_bit capabilities 1) q rq r opcode dir
      ])
  by_opcode capabilities q r none room = tt
  by_opcode capabilities q r (some (opcode, dir)) room =
      dispatch-Answered (test_bit capabilities 1) q r opcode dir room

  queue_rq-Answered :
      (capabilities : ℕ) (q : DriverQueue) (r : Request)
      → get_elem? q.requests rq.tag ≡ some r
      → length rq.segments ≤ length r.sgl
      → Answered (queue_rq capabilities q rq)
  unfolding queue_rq
  queue_rq-Answered capabilities q r found room = elim (Bool-cases (misaligned q rq)) [
    | inl refused ↦ rw refused tt
    | inr aligned ↦ elim (Bool-cases (rq.fua && not (is_write rq.op))) [
      | inl refused ↦ rw (aligned, refused) tt
      | inr goes_on ↦
          rw (aligned, goes_on, found, queue_rq) (by_opcode capabilities q r (opcode_of rq.op) room)
    ]
  ]

  -- A request with a tag of the queue and no more segments than the slot's list has entries is answered
  -- on every path, accepted or refused, without an access outside the slots or the list, and the queue
  -- stays valid and holds what it held.
  pub queue_rq-Succeeds :
      (xs : List Resource) (capabilities : ℕ) (q : DriverQueue) (r : Request)
      → IsSafe xs q
      → get_elem? q.requests rq.tag ≡ some r
      → length rq.segments ≤ length r.sgl
      → Succeeds (λ out. IsSafe xs out.queue) (queue_rq capabilities q rq)
  queue_rq-Succeeds xs capabilities q r safe found room =
      Succeeds-of-Gives (λ out. Unit {0}) (λ out. IsSafe xs out.queue) (queue_rq capabilities q rq)
        (queue_rq-Answered capabilities q r found room) (queue_rq-IsSafe xs rq capabilities q safe)
