-- ===== src/Driver/Idle.antt =====
-- driver/openflash/openflash_queue.c, openflash_irq: an interrupt between two commands.
use openflash_controller_lab.Base.{
  ℕ, ◌+◌, ◌%◌, ◌<◌, refl, inl, inr, not, Bool-cases, arith, List, ◌==◌, test_bit, u16, ok, Succeeds,
  Succeeds-bind,
}
use native.Mathlib.Nat.{mod-lt}
use openflash_controller_lab.Abi.Struct.{Completion}
use openflash_controller_lab.Driver.State.{DriverQueue}
use openflash_controller_lab.Driver.Completion.{take_admin, consume, drain, drain_admin_cq}
use openflash_controller_lab.Driver.Kernel.{Interrupt, Resource}
use openflash_controller_lab.Driver.Admin.{irq}
use openflash_controller_lab.Driver.Drain.{SameRing}
use openflash_controller_lab.Driver.Ends.{drain_ends}
use openflash_controller_lab.Driver.Waits.{IsIdle}

module _ (A : List Resource) where
  take_admin-IsIdle :
      (q : DriverQueue) (c : Completion)
      → IsIdle A q
      → SameRing q (take_admin q c) × IsIdle A (consume (take_admin q c).0)
  unfolding take_admin consume
  take_admin-IsIdle q c v =
      let pos : 0 < q.depth = omega (arith, v.below) in
      let head : ((q.cq_head + 1) % q.depth) % u16 < q.depth =
        omega (arith, mod-lt (q.cq_head + 1) pos) in
      elim (Bool-cases q.admin_pending) [
        | inl pending ↦ elim (Bool-cases (c.cid == q.admin_cid)) [
          | inl mine ↦
              rw (pending, mine)
                ((refl, refl, refl), record { below = head; small = v.small; owns = v.owns })
          | inr stranger ↦
              rw (pending, stranger)
                ((refl, refl, refl), record { below = head; small = v.small; owns = v.owns })
        ]
        | inr idle ↦
            rw idle ((refl, refl, refl), record { below = head; small = v.small; owns = v.owns })
      ]

  drain_admin_cq-IsIdle :
      (cqes : ℕ → Completion) (q : DriverQueue)
      → IsIdle A q
      → Succeeds (λ r. IsIdle A r.0) (drain_admin_cq (q.depth + 1) cqes q)
  unfolding drain_admin_cq
  drain_admin_cq-IsIdle cqes q v =
      let take_one = λ (p : DriverQueue) (c : Completion). ok (take_admin p c) in
      let runs =
        drain_ends take_one (IsIdle A) cqes (λ p w. take_admin-IsIdle p (cqes p.cq_head) w)
          (q.depth + 1) 0 q (omega arith) v.below v.small v in
      Succeeds-bind (λ r. IsIdle A r.0) (λ r. IsIdle A r.0) (drain take_one (q.depth + 1) cqes q 0)
        _ runs
        (λ r w. elim (Bool-cases (r.2 == 0)) [
          | inl nothing ↦ rw nothing w
          | inr some_taken ↦ rw some_taken w
        ])

  -- An interrupt of vector 0 that no command waits for.
  pub irq-IsIdle :
      (i : Interrupt) (q : DriverQueue) → IsIdle A q → Succeeds (λ r. IsIdle A r.0) (irq i q)
  unfolding irq
  irq-IsIdle i q v = elim (Bool-cases (not (test_bit i.status 0))) [
    | inl not_ready ↦ rw not_ready v
    | inr up ↦ rw up (
        Succeeds-bind (λ r. IsIdle A r.0) (λ r. IsIdle A r.0)
          (drain_admin_cq (q.depth + 1) i.cqes q) _ (drain_admin_cq-IsIdle i.cqes q v) (λ r w. w))
  ]
