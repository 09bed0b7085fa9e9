-- ===== src/Driver/Handlers.antt =====
-- driver/openflash/openflash_queue.c: the two interrupt handlers over a ring of completions.
use openflash_controller_lab.Base.{
  ℕ, ◌+◌, ◌<◌, ◌≤◌, ◌==◌, ◌≡◌, refl, Bool-cases, none, some, u16, out_of_bounds, ok, err, ◌>>=◌,
  Gives, Gives-bind, get_elem?, ltb, bind_assoc, [], ◌||◌, ◌-◌, inl, inr, set, arith,
}
use openflash_controller_lab.Abi.Struct.{Completion}
use openflash_controller_lab.Driver.State.{BlkStatus, Request, DriverQueue}
use openflash_controller_lab.Driver.Completion.{
  take_slot, take_at, take_io, take_admin, ring_cq_head, io_irq, drain_admin_cq, finish_request,
  blk_status,
}
use openflash_controller_lab.Driver.Drain.{
  Tagged, StandsAt, entries, serve, SameRing, KeepsRing, with_count, drain-Tagged,
}

take_slot-SameRing :
    (q : DriverQueue) (slot : ℕ) (request : Request) (status : BlkStatus)
    → Gives (SameRing q) (take_slot q slot request status)
unfolding take_slot
take_slot-SameRing q slot request status =
    elim request.rq
      as (λ o. Gives (SameRing q) (elim o [
        | none ↦ ok (q, [])
        | some rq ↦ finish_request request rq status >>= λ r.
            ok (record q { requests = set q.requests slot r.0 }, r.1)
      ])) [
        | none ↦ (refl, refl, refl)
        | some rq ↦
            Gives-bind (SameRing q) (finish_request request rq status) _ (λ r. (refl, refl, refl))
      ]

take_at-SameRing :
    (q : DriverQueue) (slot : ℕ) (status : BlkStatus) → Gives (SameRing q) (take_at q slot status)
unfolding take_at
take_at-SameRing q slot status =
    elim (get_elem? q.requests slot)
      as (λ o.
        Gives (SameRing q)
          (elim o [ none ↦ err out_of_bounds | some request ↦ take_slot q slot request status ])) [
            | none ↦ tt
            | some request ↦ take_slot-SameRing q slot request status
          ]

take_io-KeepsRing : KeepsRing take_io
unfolding take_io
take_io-KeepsRing q c = elim (Bool-cases (c.cid == 0 || ltb (q.depth - 1) c.cid)) [
  | inl skip ↦ rw skip (refl, refl, refl)
  | inr named ↦ rw named (take_at-SameRing q (c.cid - 1) (blk_status c.status))
]

take_admin-KeepsRing : KeepsRing (λ p cqe. ok (take_admin p cqe))
unfolding take_admin
take_admin-KeepsRing q c = elim (Bool-cases q.admin_pending) [
  | inl waiting ↦ elim (Bool-cases (c.cid == q.admin_cid)) [
    | inl mine ↦ rw (waiting, mine) (refl, refl, refl)
    | inr stranger ↦ rw (waiting, stranger) (refl, refl, refl)
  ]
  | inr idle ↦ rw idle (refl, refl, refl)
]

module _ (d : ℕ) (cqes : ℕ → Completion) (n h lo fuel : ℕ) (q : DriverQueue) where
  -- With a ring of fewer than 65536 entries that carry their laps' phases up to position `h + n`
  -- and the driver at position `h`, the handler of an I/O interrupt takes exactly the entries at
  -- the `n` positions from `h` on, each once and in order, rings the doorbell once if there were
  -- any, and returns; rounds for one more than `n` are enough.
  pub io_irq-Tagged :
      0 < d
      → d < u16
      → n < fuel
      → lo ≤ h
      → lo + d ≤ h + n
      → d ≤ h
      → Tagged d cqes lo (h + n)
      → StandsAt d q h
      → io_irq fuel cqes q
        ≡ (serve take_io q (entries d cqes h n) >>= λ r. ok (ring_cq_head (with_count n r)))
  unfolding io_irq
  io_irq-Tagged pos small f a b c t v =
      let from_zero : 0 + n ≡ n = omega arith in
      rw
        (
          drain-Tagged take_io take_io-KeepsRing d cqes n h lo fuel 0 q pos small f a b c t v,
          bind_assoc (serve take_io q (entries d cqes h n)),
          from_zero,
        )
        refl

  -- With an admin ring of fewer than 65536 entries that carry their laps' phases up to position
  -- `h + n` and the driver at position `h`, draining it takes exactly the entries at the `n`
  -- positions from `h` on, each once and in order, rings the doorbell once if there were any, and
  -- returns.
  pub drain_admin_cq-Tagged :
      0 < d
      → d < u16
      → n < fuel
      → lo ≤ h
      → lo + d ≤ h + n
      → d ≤ h
      → Tagged d cqes lo (h + n)
      → StandsAt d q h
      → drain_admin_cq fuel cqes q ≡ (
          serve (λ p cqe. ok (take_admin p cqe)) q (entries d cqes h n) >>= λ r.
          ok (ring_cq_head (with_count n r)))
  unfolding drain_admin_cq
  drain_admin_cq-Tagged pos small f a b c t v =
      let from_zero : 0 + n ≡ n = omega arith in
      rw
        (
          drain-Tagged (λ p cqe. ok (take_admin p cqe)) take_admin-KeepsRing d cqes n h lo fuel 0 q
              pos small f a b c t v,
          bind_assoc (serve (λ p cqe. ok (take_admin p cqe)) q (entries d cqes h n)),
          from_zero,
        )
        refl
