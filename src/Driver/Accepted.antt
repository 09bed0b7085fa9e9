-- ===== src/Driver/Accepted.antt =====
-- driver/openflash/openflash_core.c, openflash_queue_rq: a request with a transfer that is accepted.
use openflash_controller_lab.Base.{
  ℕ, ◌+◌, ◌<◌, ◌≤◌, ◌≡◌, ◌∙◌, refl, ap, true, false, not, ◌&&◌, none, some, List, ok, get_elem?,
  set, length, arith, ltb, ◌==◌, test_bit,
}
use openflash_controller_lab.Driver.State.{Request, DriverQueue, Direction}
use openflash_controller_lab.Driver.Request.{
  BlkRequest, opcode_of, is_write, misaligned, final_command, publish, submit, submit_mapped,
  dispatch, queue_rq, map_segments,
}
use openflash_controller_lab.Driver.Mapped.{mapped, stored, map_segments-mapped}

-- What the handler asks of a request with a transfer, of its slot and of its segments.
pub record Accepts (capabilities : ℕ) (q : DriverQueue) (rq : BlkRequest) (request : Request)
    (opcode : ℕ) (dir : Direction) (segments : List (ℕ × ℕ)) : Type 0 where
  pub aligned : misaligned q rq ≡ false
  pub fua_writes : (rq.fua && not (is_write rq.op)) ≡ false
  pub fua_offered : (rq.fua && not (test_bit capabilities 1)) ≡ false
  pub at_tag : get_elem? q.requests rq.tag ≡ some request
  pub free : request.rq ≡ none
  pub transfers : opcode_of rq.op ≡ some (opcode, some dir)
  pub not_empty : (rq.bytes == 0) ≡ false
  pub few : rq.nr_phys_segments ≤ 16
  pub addresses : rq.segments ≡ mapped segments
  pub some_segments : 0 < length segments
  pub room : length segments ≤ length request.sgl

-- The slot with the list filled in, and with the transfer.
abbrev pub filled : Request → List (ℕ × ℕ) → Request
filled request segments = record request { sgl = stored segments 0 request.sgl }

abbrev pub at_work : Request → List (ℕ × ℕ) → Direction → Request
at_work request segments dir = record (filled request segments) {
  nr_mapped = length segments;
  dma_dir = dir;
}

abbrev pub with_filled : DriverQueue → BlkRequest → Request → List (ℕ × ℕ) → DriverQueue
with_filled q rq request segments = record q {
  requests = set q.requests rq.tag (filled request segments);
}

module _ (capabilities : ℕ) (q : DriverQueue) (rq : BlkRequest) (request : Request) (opcode : ℕ)
    (dir : Direction) (segments : List (ℕ × ℕ))
    (a : Accepts capabilities q rq request opcode dir segments) where
  submit-Accepts :
      submit
        (test_bit capabilities 1)
        (with_filled q rq request segments)
        rq
        (filled request segments)
        opcode
        (length segments)
        dir
      ≡ publish
          (with_filled q rq request segments)
          rq
          (at_work request segments dir)
          (final_command q rq opcode (length segments) request.sgl_dma)
  unfolding submit
  submit-Accepts =
      let nonzero : (length segments == 0) ≡ false = ground (arith, a.some_segments) in
      rw (a.free, a.fua_offered, nonzero) refl

  dispatch-Accepts :
      dispatch (test_bit capabilities 1) q rq request opcode (some dir)
      ≡ publish
          (with_filled q rq request segments)
          rq
          (at_work request segments dir)
          (final_command q rq opcode (length segments) request.sgl_dma)
  unfolding dispatch submit_mapped
  dispatch-Accepts =
      let from_zero : 0 + length segments ≡ length segments = omega arith in
      let few : ltb 16 rq.nr_phys_segments ≡ false = ground (arith, a.few) in
      let segments_mapped : map_segments rq.segments 0 request.sgl
          ≡ ok (true, length segments, stored segments 0 request.sgl) =
        ap (λ x. map_segments x 0 request.sgl) a.addresses
        ∙ (map_segments-mapped segments 0 request.sgl (omega (arith, a.room))
            ∙ ap (λ n. ok (true, n, stored segments 0 request.sgl)) from_zero) in
      rw (a.not_empty, few, segments_mapped) submit-Accepts

  pub queue_rq-Accepts :
      queue_rq capabilities q rq
      ≡ publish
          (with_filled q rq request segments)
          rq
          (at_work request segments dir)
          (final_command q rq opcode (length segments) request.sgl_dma)
  unfolding queue_rq
  queue_rq-Accepts = rw (a.aligned, a.fua_writes, a.at_tag, a.transfers, queue_rq) dispatch-Accepts
