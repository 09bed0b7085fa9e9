-- ===== src/Driver/Overrun.antt =====
-- driver/openflash/openflash_core.c, openflash_queue_rq: the loop over the segments has no guard of
-- its own, and the guard before it counts other segments.
use openflash_controller_lab.Base.{
  ℕ, Option, ◌+◌, ◌<◌, ◌≤◌, ◌≡◌, ◌∙◌, refl, ap, false, not, ◌&&◌, some, List, [], ◌∷◌, err,
  get_elem?, set, length, length-set, arith, ltb, ◌==◌, Bool-cases, inl, inr, out_of_bounds,
}
use openflash_controller_lab.Abi.Struct.{SglDesc}
use openflash_controller_lab.Driver.State.{Request, DriverQueue, Direction}
use openflash_controller_lab.Driver.Request.{
  BlkRequest, opcode_of, is_write, misaligned, map_segments, dispatch, queue_rq,
}
use openflash_controller_lab.Driver.Mapped.{mapped}

map_segments-overrun :
    (segments : List (ℕ × ℕ)) (n : ℕ) (sgl : List SglDesc)
    → n ≤ length sgl
    → length sgl < n + length segments
    → map_segments (mapped segments) n sgl ≡ err out_of_bounds
unfolding map_segments
map_segments-overrun [] n sgl h over = absurd (omega arith)
map_segments-overrun ((len, dma) ∷ segments) n sgl h over =
    let desc : SglDesc = record { addr = dma; length = len; reserved = 0 } in
    elim (Bool-cases (ltb n (length sgl))) [
      | inl inside ↦ rw inside (
          map_segments-overrun segments (n + 1) (set sgl n desc)
            (ground (arith, length-set sgl n desc)) (omega (arith, length-set sgl n desc)))
      | inr outside ↦ rw outside refl
    ]

-- A request that passes every guard before the loop, with its segments as the loop sees them.
pub record Looped (q : DriverQueue) (rq : BlkRequest) (request : Request) (opcode : ℕ)
    (dir : Direction) (segments : List (ℕ × Option ℕ)) : Type 0 where
  pub aligned : misaligned q rq ≡ false
  pub fua_writes : (rq.fua && not (is_write rq.op)) ≡ false
  pub at_tag : get_elem? q.requests rq.tag ≡ some request
  pub transfers : opcode_of rq.op ≡ some (opcode, some dir)
  pub not_empty : (rq.bytes == 0) ≡ false
  pub few : rq.nr_phys_segments ≤ 16
  pub addresses : rq.segments ≡ segments

module _ (capabilities : ℕ) (q : DriverQueue) (rq : BlkRequest) (request : Request) (opcode : ℕ)
    (dir : Direction) (segments : List (ℕ × ℕ)) where
  -- A request that passes every guard, with at most 16 physical segments, stores outside the
  -- slot's list where `rq_for_each_segment` yields more segments than the list has entries.
  pub queue_rq-overrun :
      Looped q rq request opcode dir (mapped segments)
      → length request.sgl < length segments
      → queue_rq capabilities q rq ≡ err out_of_bounds
  unfolding queue_rq dispatch
  queue_rq-overrun a over =
      let few : ltb 16 rq.nr_phys_segments ≡ false = ground (arith, a.few) in
      let faults : map_segments rq.segments 0 request.sgl ≡ err out_of_bounds =
        ap (λ x. map_segments x 0 request.sgl) a.addresses
        ∙ map_segments-overrun segments 0 request.sgl (omega arith) (omega (arith, over)) in
      rw (a.aligned, a.fua_writes, a.at_tag, a.transfers, queue_rq, a.not_empty, few, faults) refl
