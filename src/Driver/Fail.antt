-- ===== src/Driver/Fail.antt =====
-- driver/openflash/openflash_queue.c, openflash_fail_io_requests.
use mathlib.Core.List.{map}
use openflash_controller_lab.Base.{
  ℕ, zero, suc, ◌≤◌, ◌≡◌, refl, false, Option, none, some, List, [], ◌∷◌, ◌++◌, Outcome, ok,
  get_elem?, arith, ltb, subst, Option-cases, inl, inr,
}
use mathlib.Core.Option.{some-injective, none-ne-some}
use openflash_controller_lab.Driver.State.{synchronize_irq, BlkStatus, Request, DriverQueue, Event}
use openflash_controller_lab.Driver.Completion.{
  finish_request, fail_one, fail_all, fail_io_requests,
}
use openflash_controller_lab.Driver.Complete.{finish_request-returns, ending}
use openflash_controller_lab.Driver.Slots.{Fits, AllFit, IsValid}

-- A slot given back, and what ends with it, by the request that it remembers.
abbrev pub released_from : Request → Option ℕ → Request
released_from request none = request
released_from request (some rq) = record request { rq = none; nr_mapped = 0 }

abbrev pub failure_of : BlkStatus → Request → Option ℕ → List Event
failure_of status request none = []
failure_of status request (some rq) = ending request rq status

abbrev pub released : Request → Request
released request = released_from request request.rq

abbrev pub failure : BlkStatus → Request → List Event
failure status request = failure_of status request request.rq

abbrev pub failures : BlkStatus → List Request → List Event
failures status [] = []
failures status (request ∷ requests) = failure status request ++ failures status requests

fail_one-returns :
    (request : Request) (status : BlkStatus)
    → Fits request
    → fail_one request status ≡ ok (released request, failure status request)
unfolding fail_one
fail_one-returns request status fit = go request.rq
  where
    go :
        (o : Option ℕ)
        → (elim o as (λ k. Outcome (Request × List Event)) [
          | none ↦ ok (request, [])
          | some rq ↦ finish_request request rq status
        ])
          ≡ ok (released_from request o, failure_of status request o)
    go none = refl
    go (some rq) = finish_request-returns request rq status fit

pub fail_all-returns :
    (requests : List Request) (status : BlkStatus)
    → AllFit requests
    → fail_all requests status ≡ ok (map released requests, failures status requests)
unfolding fail_all
fail_all-returns [] status fit = refl
fail_all-returns (request ∷ requests) status (fit, all) =
    rw (fail_one-returns request status fit, fail_all-returns requests status all) refl

released-free : (request : Request) → (released request).rq ≡ none
released-free request = elim (Option-cases request.rq) [
  | inl idle ↦ rw idle refl
  | inr (rq, waits) ↦ rw waits refl
]

-- No slot holds a request.
abbrev pub AllIdle : List Request → Type 0
AllIdle [] = Unit {0}
AllIdle (request ∷ requests) = (request.rq ≡ none) × AllIdle requests

pub released-AllIdle : (requests : List Request) → AllIdle (map released requests)
released-AllIdle [] = tt
released-AllIdle (request ∷ requests) = (released-free request, released-AllIdle requests)

all-free :
    (requests : List Request) (i : ℕ) (slot : Request)
    → get_elem? (map released requests) i ≡ some slot
    → slot.rq ≡ none
all-free [] i slot h = absurd (none-ne-some _ h)
all-free (request ∷ requests) zero slot h =
    subst (λ (r : Request). r.rq ≡ none) (some-injective _ _ h) (released-free request)
all-free (request ∷ requests) (suc i) slot h = all-free requests i slot h

module _ (nr_queues : ℕ) (q : DriverQueue) (status : BlkStatus) where
  -- With an I/O queue that is valid, failing the requests waits for the
  -- handler of an I/O interrupt, then ends every pending one with the status,
  -- in the order of the tags, each after its segments are unmapped, and leaves every slot free.
  pub fail_io_requests-frees :
      2 ≤ nr_queues
      → IsValid q
      → (done : DriverQueue) × (fail_io_requests nr_queues q status
          ≡ ok (done, synchronize_irq 1 ∷ failures status q.requests))
        × ((i : ℕ) (slot : Request) → get_elem? done.requests i ≡ some slot → slot.rq ≡ none)
  unfolding fail_io_requests
  fail_io_requests-frees there v =
      let enough : ltb nr_queues 2 ≡ false = ground arith in
      (
        record q { requests = map released q.requests },
        rw (enough, fail_all-returns q.requests status v.fits) refl,
        all-free q.requests,
      )
