-- ===== src/Driver/Io.antt =====
-- driver/openflash/openflash_queue.c: the I/O queue at work (openflash_io_irq,
-- openflash_fail_io_requests).
use mathlib.Core.List.{map}
use mathlib.Core.Option.{some-injective}
use openflash_controller_lab.Base.{
  ℕ, zero, suc, ◌+◌, ◌-◌, ◌<◌, ◌≡◌, ◌∙◌, refl, sym, ap, ap₂, inl, inr, Bool-cases, ◌||◌, arith,
  Option, none, some, Option-cases, List, [], ◌∷◌, ltb, ◌==◌, u16, get_elem?, set, length,
  length-set, length-map, Succeeds, Succeeds-bind, Succeeds-weaken,
}
use openflash_controller_lab.Base.Take.{get_elem-exists}
use openflash_controller_lab.Abi.Struct.{Completion}
use openflash_controller_lab.Driver.State.{BlkStatus, Request, DriverQueue}
use openflash_controller_lab.Driver.Completion.{
  blk_status, take_at, take_io, consume, drain, io_irq, fail_io_requests,
}
use openflash_controller_lab.Driver.Drain.{SameRing}
use openflash_controller_lab.Driver.Ends.{drain_ends}
use openflash_controller_lab.Driver.Complete.{take_at-returns}
use openflash_controller_lab.Driver.Slots.{
  IsValid, Fits, AllFit, get_elem-Fits, set-AllFit, take_at-idle,
}
use openflash_controller_lab.Driver.Kernel.{Resource, dma}
use openflash_controller_lab.Driver.Fail.{released_from, released, fail_all-returns}
use native.Mathlib.Nat.{mod-lt}
use openflash_controller_lab.Driver.Setup.{list_size}
use openflash_controller_lab.Driver.Holds.{lists, io_owned}

-- A queue that is set up and holds `xs`.
pub record IsSafe (xs : List Resource) (q : DriverQueue) : Type 0 where
  pub valid : IsValid q
  pub below : q.cq_head < q.depth
  pub small : q.depth < u16
  pub owns : io_owned q ≡ xs

pub lists-set :
    (requests : List Request) (i : ℕ) (old new : Request)
    → get_elem? requests i ≡ some old
    → new.sgl_dma ≡ old.sgl_dma
    → lists (set requests i new) ≡ lists requests
lists-set [] i old new found same = refl
lists-set (r ∷ rs) zero old new found same =
    let e : r.sgl_dma ≡ new.sgl_dma =
      ap (λ (x : Request). x.sgl_dma) (some-injective _ _ found) ∙ sym same in
    rw e refl
lists-set (r ∷ rs) (suc i) old new found same = rw (lists-set rs i old new found same) refl

-- A slot may change, as long as it keeps its list and counts no more than that holds.
pub set-IsSafe :
    (xs : List Resource) (q : DriverQueue) (i : ℕ) (old new : Request)
    → IsSafe xs q
    → get_elem? q.requests i ≡ some old
    → new.sgl_dma ≡ old.sgl_dma
    → Fits new
    → IsSafe xs (record q { requests = set q.requests i new })
set-IsSafe xs q i old new s found same fit = record {
  valid = record {
    slots = omega (arith, length-set q.requests i new, s.valid.slots);
    fits = set-AllFit q.requests i new s.valid.fits fit;
  };
  below = s.below;
  small = s.small;
  owns = rw (lists-set q.requests i old new found same) s.owns;
}

released_from-Fits :
    (r : Request) (o : Option ℕ)
    → Fits r
    → Fits (released_from r o) × ((released_from r o).sgl_dma ≡ r.sgl_dma)
released_from-Fits r none fit = (fit, refl)
released_from-Fits r (some rq) fit = (omega arith, refl)

released_all :
    (requests : List Request)
    → AllFit requests
    → AllFit (map released requests) × (lists (map released requests) ≡ lists requests)
released_all [] all = (tt, refl)
released_all (r ∷ rs) (fit, all) =
    let one = released_from-Fits r r.rq fit in
    let others = released_all rs all in
    (
      (one.0, others.0),
      ap₂ (λ (handle : ℕ) (others' : List Resource). dma list_size handle ∷ others') one.1 others.1,
    )

module _ (xs : List Resource) where
  take_at-IsSafe :
      (q : DriverQueue) (slot : ℕ) (status : BlkStatus)
      → IsSafe xs q
      → slot < length q.requests
      → Succeeds (λ t. SameRing q t × IsSafe xs t.0) (take_at q slot status)
  take_at-IsSafe q slot status s low =
      let (request, found) = get_elem-exists q.requests slot low in
      let fit = get_elem-Fits q.requests slot request s.valid.fits found in
      elim (Option-cases request.rq) [
        | inl idle ↦ rw (take_at-idle q slot request found idle status) ((refl, refl, refl), s)
        | inr (rq, waits) ↦
            let empty : Request = record request { rq = none; nr_mapped = 0 } in
            rw (take_at-returns q slot rq request found waits fit status)
              ((refl, refl, refl), set-IsSafe xs q slot request empty s found refl (omega arith))
      ]

  take_io-IsSafe :
      (q : DriverQueue) (c : Completion)
      → IsSafe xs q
      → Succeeds (λ t. SameRing q t × IsSafe xs t.0) (take_io q c)
  unfolding take_io
  take_io-IsSafe q c s = elim (Bool-cases (c.cid == 0 || ltb (q.depth - 1) c.cid)) [
    | inl skip ↦ rw skip ((refl, refl, refl), s)
    | inr named ↦
        let low : c.cid - 1 < length q.requests = ground (arith, s.valid.slots) in
        rw named (take_at-IsSafe q (c.cid - 1) (blk_status c.status) s low)
  ]

  pos_of : (q : DriverQueue) → IsSafe xs q → 0 < q.depth
  pos_of q s = omega arith

  consume-IsSafe : (q : DriverQueue) → IsSafe xs q → IsSafe xs (consume q)
  unfolding consume
  consume-IsSafe q s = record {
    valid = record { slots = s.valid.slots; fits = s.valid.fits };
    below = omega (arith, mod-lt (q.cq_head + 1) (pos_of q s));
    small = s.small;
    owns = s.owns;
  }

  -- Whatever the ring holds, the handler of an I/O interrupt returns, makes no access outside the
  -- slots or their lists, and leaves the queue valid and its memory as it was.
  pub io_irq-IsSafe :
      (cqes : ℕ → Completion) (q : DriverQueue)
      → IsSafe xs q
      → Succeeds (λ r. IsSafe xs r.0) (io_irq (q.depth + 1) cqes q)
  unfolding io_irq
  io_irq-IsSafe cqes q s =
      let runs =
        drain_ends take_io (IsSafe xs) cqes
          (λ p safe.
            Succeeds-weaken (λ t. SameRing p t × IsSafe xs t.0)
              (λ t. SameRing p t × IsSafe xs (consume t.0)) (take_io p (cqes p.cq_head))
              (take_io-IsSafe p (cqes p.cq_head) safe)
              (λ t kept. (kept.0, consume-IsSafe t.0 kept.1)))
          (q.depth + 1) 0 q (omega arith) s.below s.small s in
      Succeeds-bind (λ r. IsSafe xs r.0) (λ r. IsSafe xs r.0) (drain take_io (q.depth + 1) cqes q 0)
        _ runs
        (λ r safe. elim (Bool-cases (r.2 == 0)) [
          | inl nothing ↦ rw nothing safe
          | inr some_taken ↦ rw some_taken safe
        ])

  -- So does failing the requests, which empties every slot, if the queue is up.
  pub fail_io_requests-IsSafe :
      (nr_queues : ℕ) (q : DriverQueue) (status : BlkStatus)
      → IsSafe xs q
      → Succeeds (λ r. IsSafe xs r.0) (fail_io_requests nr_queues q status)
  unfolding fail_io_requests
  fail_io_requests-IsSafe nr_queues q status s = elim (Bool-cases (ltb nr_queues 2)) [
    | inl none_up ↦ rw none_up s
    | inr up ↦
        rw (up, fail_all-returns q.requests status s.valid.fits)
          (record {
            valid = record {
              slots = omega (arith, length-map q.requests released, s.valid.slots);
              fits = (released_all q.requests s.valid.fits).0;
            };
            below = s.below;
            small = s.small;
            owns = rw (released_all q.requests s.valid.fits).1 s.owns;
          })
  ]
