-- ===== src/Driver/Queued.antt =====
-- driver/openflash/openflash_core.c, openflash_queue_rq: the queue after each path, also the ones that
-- turn a request away.
use openflash_controller_lab.Base.{
  ℕ, ◌+◌, ◌≤◌, ◌≡◌, ◌∙◌, refl, inl, inr, Bool, not, Bool-cases, Option-cases, ◌||◌, ◌&&◌, arith,
  Option, none, some, List, [], ◌∷◌, ltb, ◌==◌, if◌then◌else◌, test_bit, get_elem?, set, length,
  length-set, get_elem?-set_self, Gives, Gives-bind, Gives-then,
}
use openflash_controller_lab.Abi.Struct.{SglDesc, Command, max_sgl_entries}
use openflash_controller_lab.Driver.State.{
  BlkStatus, sts_resource, sts_notsupp, Request, DriverQueue, Direction, Event, fill_slot,
}
use openflash_controller_lab.Driver.Completion.{unmap_all}
use openflash_controller_lab.Driver.Request.{
  BlkRequest, Queued, opcode_of, is_write, misaligned, map_segments, back_out, base_command,
  final_command, publish, submit, submit_mapped, dispatch, queue_rq, refuse,
}
use openflash_controller_lab.Base.Take.{lt_of_get_elem}
use openflash_controller_lab.Driver.Slots.{get_elem-Fits}
use openflash_controller_lab.Driver.Kernel.{Resource}
use openflash_controller_lab.Driver.Io.{IsSafe, set-IsSafe}

map_segments-Gives :
    (total : ℕ) (segments : List (ℕ × Option ℕ)) (n : ℕ) (sgl : List SglDesc)
    → n ≤ length sgl
    → length sgl ≡ total
    → Gives (λ m. (m.1 ≤ length m.2) × (length m.2 ≡ total)) (map_segments segments n sgl)
unfolding map_segments
map_segments-Gives total [] n sgl h e = (h, e)
map_segments-Gives total ((len, none) ∷ segments) n sgl h e = (h, e)
map_segments-Gives total ((len, some dma) ∷ segments) n sgl h e =
    let desc : SglDesc = record { addr = dma; length = len; reserved = 0 } in
    let same = length-set sgl n desc in
    elim (Bool-cases (ltb n (length sgl))) [
      | inl inside ↦ rw inside (
          map_segments-Gives total segments (n + 1) (set sgl n desc) (ground (arith, same))
            (same ∙ e))
      | inr outside ↦ rw outside tt
    ]

module _ (xs : List Resource) (rq : BlkRequest) where
  abbrev pub Fine : Queued → Type 0
  Fine out = IsSafe xs out.queue

  back_out-Fine :
      (status : BlkStatus) (q : DriverQueue) (events : List Event) (n : ℕ) (sgl : List SglDesc)
      (dir : Direction)
      → IsSafe xs q
      → Gives Fine (back_out status q events n sgl dir)
  back_out-Fine status q events n sgl dir s = Gives-bind Fine (unmap_all n sgl dir) _ (λ unmaps. s)

  publish-Fine :
      (q : DriverQueue) (r r' : Request) (cmd : Command)
      → IsSafe xs q
      → get_elem? q.requests rq.tag ≡ some r
      → r'.sgl_dma ≡ r.sgl_dma
      → r'.nr_mapped ≤ length r'.sgl
      → Gives Fine (publish q rq r' cmd)
  unfolding publish
  publish-Fine q r r' cmd s found same fit =
      let t = set-IsSafe xs q rq.tag r (record r' { rq = some rq.number }) s found same fit in
      record {
        valid = record { slots = t.valid.slots; fits = t.valid.fits };
        below = t.below;
        small = t.small;
        owns = t.owns;
      }

  submit-Fine :
      (has_cap : Bool) (q : DriverQueue) (r : Request) (opcode n : ℕ) (dir : Direction)
      → IsSafe xs q
      → get_elem? q.requests rq.tag ≡ some r
      → n ≤ length r.sgl
      → Gives Fine (submit has_cap q rq r opcode n dir)
  unfolding submit
  submit-Fine has_cap q r opcode n dir s found fit =
      let dir' = if n == 0 then r.dma_dir else dir in
      let r' = record r { nr_mapped = n; dma_dir = dir' } in
      elim r.rq
        as (λ o. Gives Fine (elim o [
          | some busy ↦ back_out sts_resource q [] n r.sgl dir
          | none ↦
              if rq.fua && not has_cap
              then back_out sts_notsupp q (fill_slot q.sq_tail (base_command q rq opcode) ∷ []) n
                  r.sgl dir
              else publish q rq r' (final_command q rq opcode n r.sgl_dma)
        ])) [
          | some busy ↦ back_out-Fine sts_resource q [] n r.sgl dir s
          | none ↦ elim (Bool-cases (rq.fua && not has_cap)) [
            | inl refused ↦ rw refused (
                back_out-Fine sts_notsupp q (fill_slot q.sq_tail (base_command q rq opcode) ∷ []) n
                  r.sgl dir s)
            | inr goes_on ↦
                rw goes_on
                  (publish-Fine q r r' (final_command q rq opcode n r.sgl_dma) s found refl fit)
          ]
        ]

  submit_mapped-Fine :
      (has_cap : Bool) (q : DriverQueue) (r : Request) (opcode : ℕ) (dir : Direction)
      (m : Bool × ℕ × List SglDesc)
      → IsSafe xs q
      → get_elem? q.requests rq.tag ≡ some r
      → (m.1 ≤ length m.2) × (length m.2 ≡ length r.sgl)
      → Gives Fine (submit_mapped has_cap q rq r opcode dir m)
  unfolding submit_mapped
  submit_mapped-Fine has_cap q r opcode dir (done, mapped, sgl) s found (fit, same) =
      let slot = record r { sgl = sgl } in
      let q' = record q { requests = set q.requests rq.tag slot } in
      let old = get_elem-Fits q.requests rq.tag r s.valid.fits found in
      let safe = set-IsSafe xs q rq.tag r slot s found refl (omega (arith, old, same)) in
      elim (Bool-cases done) [
        | inl all ↦ rw all (
            submit-Fine has_cap q' slot opcode mapped dir safe
              (get_elem?-set_self q.requests rq.tag slot (lt_of_get_elem q.requests rq.tag r found))
              fit)
        | inr some_failed ↦ rw some_failed (back_out-Fine sts_resource q' [] mapped sgl dir safe)
      ]

  dispatch-Fine :
      (has_cap : Bool) (q : DriverQueue) (r : Request) (opcode : ℕ) (dir : Option Direction)
      → IsSafe xs q
      → get_elem? q.requests rq.tag ≡ some r
      → Gives Fine (dispatch has_cap q rq r opcode dir)
  unfolding dispatch
  dispatch-Fine has_cap q r opcode none s found =
      submit-Fine has_cap q r opcode 0 r.dma_dir s found (omega arith)
  dispatch-Fine has_cap q r opcode (some dir) s found =
      elim (Bool-cases (rq.bytes == 0 || ltb max_sgl_entries rq.nr_phys_segments)) [
        | inl refused ↦ rw refused s
        | inr goes_on ↦ rw goes_on (
            Gives-then (λ m. (m.1 ≤ length m.2) × (length m.2 ≡ length r.sgl)) Fine
              (map_segments rq.segments 0 r.sgl) _
              (map_segments-Gives (length r.sgl) rq.segments 0 r.sgl (omega arith) refl)
              (λ m h. submit_mapped-Fine has_cap q r opcode dir m s found h))
      ]

  by_opcode :
      (capabilities : ℕ) (q : DriverQueue) (r : Request) (o : Option (ℕ × Option Direction))
      → IsSafe xs q
      → get_elem? q.requests rq.tag ≡ some r
      → Gives Fine (elim o [
        | none ↦ refuse sts_notsupp q
        | some (opcode, dir) ↦ dispatch (test_bit capabilities 1) q rq r opcode dir
      ])
  by_opcode capabilities q r none s found = s
  by_opcode capabilities q r (some (opcode, dir)) s found =
      dispatch-Fine (test_bit capabilities 1) q r opcode dir s found

  -- Whatever the request, where `openflash_queue_rq` makes no access outside the slots and the slot's
  -- list, it leaves the queue valid and its memory as it was, accepted or refused.
  pub queue_rq-IsSafe :
      (capabilities : ℕ) (q : DriverQueue) → IsSafe xs q → Gives Fine (queue_rq capabilities q rq)
  unfolding queue_rq
  queue_rq-IsSafe capabilities q s = elim (Bool-cases (misaligned q rq)) [
    | inl refused ↦ rw refused s
    | inr aligned ↦ elim (Bool-cases (rq.fua && not (is_write rq.op))) [
      | inl refused ↦ rw (aligned, refused) s
      | inr goes_on ↦ elim (Option-cases (get_elem? q.requests rq.tag)) [
        | inl missing ↦ rw (aligned, goes_on, missing, queue_rq) tt
        | inr (r, found) ↦
            rw (aligned, goes_on, found, queue_rq)
              (by_opcode capabilities q r (opcode_of rq.op) s found)
      ]
    ]
  ]
