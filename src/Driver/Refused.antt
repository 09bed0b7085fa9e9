-- ===== src/Driver/Refused.antt =====
-- driver/openflash/openflash_core.c, openflash_queue_rq: the ways out after segments were mapped,
-- other than the queued command.
use openflash_controller_lab.Base.{
  ℕ, suc, ◌+◌, ◌≤◌, ◌≡◌, ◌∙◌, sym, refl, ap, Bool, true, false, not, ◌&&◌, Option, none, List, [],
  ◌∷◌, ◌++◌, ok, ◌>>=◌, set, length, length-set, arith, ltb, take, test_bit,
}
use openflash_controller_lab.Abi.Struct.{SglDesc}
use openflash_controller_lab.Driver.State.{
  sts_resource, sts_notsupp, Request, DriverQueue, Direction, fill_slot,
}
use openflash_controller_lab.Driver.Completion.{unmap_all}
use openflash_controller_lab.Driver.Request.{
  BlkRequest, back_out, base_command, map_segments, submit, submit_mapped, dispatch, queue_rq,
}
use openflash_controller_lab.Driver.Mapped.{
  mapped, stored, descriptors, unmaps, unmap_all-returns, length-stored, take-stored,
  map_segments-mapped,
}
use openflash_controller_lab.Driver.Accepted.{filled, with_filled}
use openflash_controller_lab.Driver.Overrun.{Looped}

-- Segments of which one, after those that are mapped, has no mapping.
abbrev pub failing : List (ℕ × ℕ) → ℕ → List (ℕ × Option ℕ) → List (ℕ × Option ℕ)
failing good len more = mapped good ++ ((len, none) ∷ more)

map_segments-failing :
    (good : List (ℕ × ℕ)) (len : ℕ) (more : List (ℕ × Option ℕ)) (n : ℕ) (sgl : List SglDesc)
    → n + length good ≤ length sgl
    → map_segments (failing good len more) n sgl ≡ ok (false, n + length good, stored good n sgl)
unfolding map_segments
map_segments-failing [] len more n sgl h = let total : n + 0 ≡ n = omega arith in rw total refl
map_segments-failing ((size, dma) ∷ good) len more n sgl h =
    let desc : SglDesc = record { addr = dma; length = size; reserved = 0 } in
    let room : ltb n (length sgl) ≡ true = ground arith in
    let total : n + suc (length good) ≡ n + 1 + length good = omega arith in
    rw (room, total)
      (map_segments-failing good len more (n + 1) (set sgl n desc)
        (omega (arith, length-set sgl n desc)))

-- The list that the loop has filled is unmapped whole.
unmap_all-stored :
    (good : List (ℕ × ℕ)) (sgl : List SglDesc) (dir : Direction)
    → length good ≤ length sgl
    → unmap_all (length good) (stored good 0 sgl) dir ≡ ok (unmaps dir (descriptors good))
unmap_all-stored good sgl dir room =
    let from_zero : 0 + length good ≡ length good = omega arith in
    unmap_all-returns (length good) (stored good 0 sgl) dir
      (omega (arith, length-stored good 0 sgl, room))
    ∙ ap (λ n. ok (unmaps dir (take n (stored good 0 sgl)))) (sym from_zero)
    ∙ ap (λ descs. ok (unmaps dir descs)) (take-stored good 0 sgl (omega (arith, room)))

submit-refused :
    (has_cap : Bool) (q : DriverQueue) (rq : BlkRequest) (r : Request) (opcode n : ℕ)
    (dir : Direction)
    → r.rq ≡ none
    → (rq.fua && not has_cap) ≡ true
    → submit has_cap q rq r opcode n dir
      ≡ back_out sts_notsupp q (fill_slot q.sq_tail (base_command q rq opcode) ∷ []) n r.sgl dir
unfolding submit
submit-refused has_cap q rq r opcode n dir free refused = rw (free, refused) refl

module _ (capabilities : ℕ) (q : DriverQueue) (rq : BlkRequest) (request : Request) (opcode : ℕ)
    (dir : Direction) (good : List (ℕ × ℕ)) where
  -- A request that passes the guards before the loop, and of which a segment cannot be mapped after
  -- others were, ends with the status for a lack of resources; the segments mapped before are
  -- unmapped, all of them, the last one first, nothing else is asked of the kernel, and of the queue
  -- only the slot's list has changed. The list has room for the segments mapped.
  pub queue_rq-unmaps :
      (len : ℕ) (more : List (ℕ × Option ℕ))
      → Looped q rq request opcode dir (failing good len more)
      → length good ≤ length request.sgl
      → queue_rq capabilities q rq
        ≡ ok (record {
          status = sts_resource;
          queue = with_filled q rq request good;
          events = unmaps dir (descriptors good);
        })
  unfolding queue_rq dispatch submit_mapped
  queue_rq-unmaps len more a room =
      let few : ltb 16 rq.nr_phys_segments ≡ false = ground (arith, a.few) in
      let from_zero : 0 + length good ≡ length good = omega arith in
      let stops : map_segments rq.segments 0 request.sgl
          ≡ ok (false, length good, stored good 0 request.sgl) =
        ap (λ x. map_segments x 0 request.sgl) a.addresses
        ∙ (map_segments-failing good len more 0 request.sgl (omega (arith, room))
            ∙ ap (λ n. ok (false, n, stored good 0 request.sgl)) from_zero) in
      rw
        (
          a.aligned,
          a.fua_writes,
          a.at_tag,
          a.transfers,
          queue_rq,
          a.not_empty,
          few,
          stops,
          unmap_all-stored good request.sgl dir room,
        )
        refl

  -- A request with FUA whose segments are all mapped for a free slot, on a controller without FUA,
  -- ends with the status for what is not supported; all its segments are unmapped, the last one
  -- first, the tail is not rung, and of the queue only the slot's list has changed.
  pub queue_rq-unmaps_fua :
      Looped q rq request opcode dir (mapped good)
      → length good ≤ length request.sgl
      → request.rq ≡ none
      → rq.fua ≡ true
      → test_bit capabilities 1 ≡ false
      → queue_rq capabilities q rq
        ≡ ok (record {
          status = sts_notsupp;
          queue = with_filled q rq request good;
          events = fill_slot q.sq_tail (base_command q rq opcode) ∷ unmaps dir (descriptors good);
        })
  unfolding queue_rq dispatch submit_mapped
  queue_rq-unmaps_fua a room free fua no_fua =
      let few : ltb 16 rq.nr_phys_segments ≡ false = ground (arith, a.few) in
      let from_zero : 0 + length good ≡ length good = omega arith in
      let refused : (rq.fua && not (test_bit capabilities 1)) ≡ true = rw (fua, no_fua) refl in
      let goes_on : map_segments rq.segments 0 request.sgl
          ≡ ok (true, length good, stored good 0 request.sgl) =
        ap (λ x. map_segments x 0 request.sgl) a.addresses
        ∙ (map_segments-mapped good 0 request.sgl (omega (arith, room))
            ∙ ap (λ n. ok (true, n, stored good 0 request.sgl)) from_zero) in
      let leaves =
        submit-refused (test_bit capabilities 1) (with_filled q rq request good) rq
          (filled request good) opcode (length good) dir free refused in
      rw (a.aligned, a.fua_writes, a.at_tag, a.transfers, queue_rq, a.not_empty, few, goes_on)
        (leaves
          ∙ ap
              (λ x. x >>= λ events. ok (record {
                status = sts_notsupp;
                queue = with_filled q rq request good;
                events = fill_slot q.sq_tail (base_command q rq opcode) ∷ events;
              }))
              (unmap_all-stored good request.sgl dir room))
