-- ===== src/Driver/Slots.antt =====
-- driver/openflash/openflash_queue.c: a queue whose slots hold no more mapped segments than their
-- lists have entries; the handler of an I/O interrupt then makes no access outside them.
use openflash_controller_lab.Base.{
  ℕ, zero, suc, ◌+◌, ◌-◌, ◌<◌, ◌≤◌, ◌≡◌, ◌∙◌, refl, ap, ◌||◌, none, some, List, [], ◌∷◌, ◌++◌,
  Outcome, ok, ◌>>=◌, get_elem?, set, length, length-set, arith, ltb, ◌==◌, Bool-cases, inl, inr,
  u16, subst, Option-cases,
}
use mathlib.Core.Option.{some-injective, none-ne-some}
use openflash_controller_lab.Base.Take.{get_elem-exists}
use openflash_controller_lab.Abi.Struct.{Completion}
use openflash_controller_lab.Driver.State.{BlkStatus, Request, DriverQueue, Event}
use openflash_controller_lab.Driver.Completion.{
  blk_status, take_slot, take_at, take_io, consume, io_irq, ring_cq_head,
}
use openflash_controller_lab.Driver.Drain.{Tagged, StandsAt, entries, serve, with_count}
use openflash_controller_lab.Driver.Handlers.{io_irq-Tagged}
use openflash_controller_lab.Driver.Complete.{take_at-returns, freed, ending}

abbrev pub Fits : Request → Type 0
Fits request = request.nr_mapped ≤ length request.sgl

abbrev pub AllFit : List Request → Type 0
AllFit [] = Unit {0}
AllFit (request ∷ requests) = Fits request × AllFit requests

pub record IsValid (q : DriverQueue) : Type 0 where
  pub slots : length q.requests + 1 ≡ q.depth
  pub fits : AllFit q.requests

pub get_elem-Fits :
    (requests : List Request) (i : ℕ) (request : Request)
    → AllFit requests
    → get_elem? requests i ≡ some request
    → Fits request
get_elem-Fits [] i request all h = absurd (none-ne-some _ h)
get_elem-Fits (r ∷ rs) zero request all h = subst Fits (some-injective _ _ h) all.0
get_elem-Fits (r ∷ rs) (suc i) request all h = get_elem-Fits rs i request all.1 h

pub set-AllFit :
    (requests : List Request) (i : ℕ) (request : Request)
    → AllFit requests
    → Fits request
    → AllFit (set requests i request)
set-AllFit [] i request all fit = tt
set-AllFit (r ∷ rs) zero request all fit = (fit, all.1)
set-AllFit (r ∷ rs) (suc i) request all fit = (all.0, set-AllFit rs i request all.1 fit)

-- A result with a valid queue.
abbrev pub Returns : Outcome (DriverQueue × List Event) → Type 0
Returns x = (t : DriverQueue × List Event) × (x ≡ ok t) × IsValid t.0

pub take_at-idle :
    (q : DriverQueue) (slot : ℕ) (request : Request)
    → get_elem? q.requests slot ≡ some request
    → request.rq ≡ none
    → (status : BlkStatus) → take_at q slot status ≡ ok (q, [])
unfolding take_at take_slot
take_at-idle q slot request found idle status = rw (found, take_at, idle, take_slot) refl

take_at-Returns :
    (q : DriverQueue) (slot : ℕ) (status : BlkStatus)
    → IsValid q
    → slot < length q.requests
    → Returns (take_at q slot status)
take_at-Returns q slot status v low =
    let (request, found) = get_elem-exists q.requests slot low in
    let fit = get_elem-Fits q.requests slot request v.fits found in
    elim (Option-cases request.rq) [
      | inl idle ↦ ((q, []), take_at-idle q slot request found idle status, v)
      | inr (rq, waits) ↦
          let empty : Request = record request { rq = none; nr_mapped = 0 } in
          (
            (freed q slot request, ending request rq status),
            take_at-returns q slot rq request found waits fit status,
            record {
              slots = omega (arith, length-set q.requests slot empty, v.slots);
              fits = set-AllFit q.requests slot empty v.fits (omega arith);
            },
          )
    ]

take_io-Returns : (q : DriverQueue) (c : Completion) → IsValid q → Returns (take_io q c)
unfolding take_io
take_io-Returns q c v = elim (Bool-cases (c.cid == 0 || ltb (q.depth - 1) c.cid)) [
  | inl skip ↦ ((q, []), rw skip refl, v)
  | inr named ↦
      let named_low : c.cid - 1 < length q.requests = ground (arith, v.slots) in
      rw named (take_at-Returns q (c.cid - 1) (blk_status c.status) v named_low)
]

consume-IsValid : (q : DriverQueue) → IsValid q → IsValid (consume q)
unfolding consume
consume-IsValid q v = record { slots = v.slots; fits = v.fits }

pub serve-Returns :
    (cs : List Completion) (q : DriverQueue) → IsValid q → Returns (serve take_io q cs)
unfolding serve
serve-Returns [] q v = ((q, []), refl, v)
serve-Returns (c ∷ cs) q v =
    let (t, first, valid) = take_io-Returns q c v in
    let (r, others, valid') = serve-Returns cs (consume t.0) (consume-IsValid t.0 valid) in
    ((r.0, t.1 ++ r.1), rw (first, others) refl, valid')

rings :
    (n : ℕ) (r : DriverQueue × List Event) → IsValid r.0 → IsValid (ring_cq_head (with_count n r)).0
rings n r v = elim (Bool-cases (n == 0)) [
  | inl nothing ↦ rw nothing v
  | inr some_taken ↦ rw some_taken v
]

module _ (d : ℕ) (cqes : ℕ → Completion) (n h lo fuel : ℕ) (q : DriverQueue) where
  -- Whatever the completions say, the handler of an I/O interrupt returns, makes no access outside
  -- the slots or their lists, and leaves a valid queue: of a valid queue at position `h` of a ring
  -- of fewer than 65536 entries, whose entries carry their laps' phases up to position `h + n`.
  pub io_irq-Returns :
      0 < d
      → d < u16
      → n < fuel
      → lo ≤ h
      → lo + d ≤ h + n
      → d ≤ h
      → Tagged d cqes lo (h + n)
      → StandsAt d q h
      → IsValid q
      → (r : DriverQueue × List Event × ℕ) × (io_irq fuel cqes q ≡ ok r) × IsValid r.0
  io_irq-Returns pos small f a b c t v valid =
      let (r, served, valid') = serve-Returns (entries d cqes h n) q valid in
      let runs = io_irq-Tagged d cqes n h lo fuel q pos small f a b c t v in
      (_, runs ∙ ap (λ x. x >>= λ r'. ok (ring_cq_head (with_count n r'))) served, rings n r valid')
