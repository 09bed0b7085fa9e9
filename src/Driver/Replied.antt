-- ===== src/Driver/Replied.antt =====
-- driver/openflash/openflash_queue.c, openflash_admin_command: a completion that arrives in time.
use openflash_controller_lab.Base.{
  ℕ, zero, suc, ◌+◌, ◌%◌, ◌≡◌, refl, inl, inr, true, false, not, Bool-cases, arith, List, [], ◌∷◌,
  ◌==◌, if◌then◌else◌, test_bit, Outcome, ok, err, Succeeds, Succeeds-of-Gives, Gives, Gives-then,
}
use openflash_controller_lab.Abi.Struct.{Command, Completion}
use openflash_controller_lab.Driver.Errno
use openflash_controller_lab.Driver.State.{DriverQueue, Event}
use openflash_controller_lab.Driver.Completion.{
  is_fresh, take_admin, consume, drain, drain_admin_cq,
}
use openflash_controller_lab.Driver.Kernel.{Kernel, Interrupt, Resource, Sys, follow}
use openflash_controller_lab.Driver.Admin.{
  irq, irqs, start_admin, Reply, result, failed, reply_of, end_wait, wait_for_irqs,
  wait_for_completion, admin_command,
}
use openflash_controller_lab.Driver.Waits.{IsIdle, wait_log, admin_command-Commanded}

-- What a completion says to the command that it is for.
abbrev pub answer_of : Completion → Reply
answer_of c = if c.status == 0 then result c.result else failed Errno.eio

module _ (c : Completion) where
  -- The admin queue once the completion is taken.
  record IsSettled (q : DriverQueue) : Type 0 where
    done : q.admin_done ≡ true
    settled : q.admin_pending ≡ false
    right : q.admin_error ≡ false
    status : q.admin_status ≡ c.status
    value : q.admin_result ≡ c.result

  take_admin-IsSettled :
      (q : DriverQueue) (c' : Completion) → IsSettled q → IsSettled (consume (take_admin q c').0)
  unfolding take_admin consume
  take_admin-IsSettled q c' v = rw v.settled (record {
    done = v.done;
    settled = refl;
    right = v.right;
    status = v.status;
    value = v.value;
  })

  drain-IsSettled :
      (fuel completed : ℕ) (cqes : ℕ → Completion) (q : DriverQueue)
      → IsSettled q
      → Gives (λ r. IsSettled r.0) (drain (λ p cqe. ok (take_admin p cqe)) fuel cqes q completed)
  unfolding drain
  drain-IsSettled zero completed cqes q v = tt
  drain-IsSettled (suc fuel) completed cqes q v = elim (Bool-cases (is_fresh q (cqes q.cq_head))) [
    | inl fresh ↦ rw fresh (
        Gives-then (λ r. IsSettled r.0) (λ r. IsSettled r.0)
          (drain (λ p cqe. ok (take_admin p cqe)) fuel cqes
            (consume (take_admin q (cqes q.cq_head)).0) (completed + 1))
          _
          (drain-IsSettled fuel (completed + 1) cqes (consume (take_admin q (cqes q.cq_head)).0)
            (take_admin-IsSettled q (cqes q.cq_head) v))
          (λ r w. w))
    | inr stale ↦ rw stale v
  ]

  drain_admin_cq-IsSettled :
      (fuel : ℕ) (cqes : ℕ → Completion) (q : DriverQueue)
      → Gives (λ r. IsSettled r.0) (drain (λ p cqe. ok (take_admin p cqe)) fuel cqes q 0)
      → Gives (λ r. IsSettled r.0) (drain_admin_cq fuel cqes q)
  unfolding drain_admin_cq
  drain_admin_cq-IsSettled fuel cqes q h =
      Gives-then (λ r. IsSettled r.0) (λ r. IsSettled r.0)
        (drain (λ p cqe. ok (take_admin p cqe)) fuel cqes q 0) _ h
        (λ r v. elim (Bool-cases (r.2 == 0)) [
          | inl nothing ↦ rw nothing v
          | inr some_taken ↦ rw some_taken v
        ])

  -- One interrupt, if draining the ring settles the queue or if it already is.
  irq-IsSettled :
      (i : Interrupt) (q : DriverQueue) → IsSettled q → Gives (λ r. IsSettled r.0) (irq i q)
  unfolding irq
  irq-IsSettled i q v = elim (Bool-cases (not (test_bit i.status 0))) [
    | inl not_ready ↦ rw not_ready v
    | inr up ↦ rw up (
        Gives-then (λ r. IsSettled r.0) (λ r. IsSettled r.0) (drain_admin_cq (q.depth + 1) i.cqes q)
          _
          (drain_admin_cq-IsSettled (q.depth + 1) i.cqes q
            (drain-IsSettled (q.depth + 1) 0 i.cqes q v))
          (λ r w. w))
  ]

  irqs-IsSettled :
      (is : List Interrupt) (q : DriverQueue) → IsSettled q → Gives (λ r. IsSettled r.0) (irqs is q)
  unfolding irqs
  irqs-IsSettled [] q v = v
  irqs-IsSettled (i ∷ is) q v =
      Gives-then (λ r. IsSettled r.0) (λ r. IsSettled r.0) (irq i q) _ (irq-IsSettled i q v)
        (λ r w.
          Gives-then (λ r'. IsSettled r'.0) (λ r'. IsSettled r'.0) (irqs is r.0) _
            (irqs-IsSettled is r.0 w) (λ r' w'. w'))

  irqs_after :
      (i : Interrupt) (is : List Interrupt) (q : DriverQueue)
      → Gives (λ r. IsSettled r.0) (irq i q)
      → Gives (λ r. IsSettled r.0) (irqs (i ∷ is) q)
  unfolding irqs
  irqs_after i is q h =
      Gives-then (λ r. IsSettled r.0) (λ r. IsSettled r.0) (irq i q) _ h
        (λ r w.
          Gives-then (λ r'. IsSettled r'.0) (λ r'. IsSettled r'.0) (irqs is r.0) _
            (irqs-IsSettled is r.0 w) (λ r' w'. w'))

  reply_of-IsSettled : (q : DriverQueue) → IsSettled q → reply_of q ≡ answer_of c
  unfolding reply_of
  reply_of-IsSettled q v = elim (Bool-cases (c.status == 0)) [
    | inl success ↦ rw (v.right, v.status, v.value, success) refl
    | inr failure ↦ rw (v.right, v.status, v.value, failure) refl
  ]

  after_irqs :
      (o : Outcome (DriverQueue × List Event)) (s : Sys)
      → Gives (λ r. IsSettled r.0) o
      → Gives (λ r. r.0 ≡ answer_of c) (follow (λ done. end_wait done) (wait_for_irqs o s))
  unfolding end_wait reply_of
  after_irqs (err e) s h = tt
  after_irqs (ok (q, events)) s v = rw (v.done, end_wait) (reply_of-IsSettled q v)

-- The completion at the head of the ring, for the command that waits.
pub record IsHead (i : Interrupt) (q : DriverQueue) : Type 0 where
  pub ready : test_bit i.status 0 ≡ true
  pub fresh : (i.cqes q.cq_head).flags % 2 ≡ q.cq_phase
  pub mine : (i.cqes q.cq_head).cid ≡ q.admin_cid

taken :
    (i : Interrupt) (q : DriverQueue)
    → q.admin_pending ≡ true
    → IsHead i q
    → IsSettled (i.cqes q.cq_head) (consume (take_admin q (i.cqes q.cq_head)).0)
unfolding take_admin consume
taken i q pending h =
    let mine : ((i.cqes q.cq_head).cid == q.admin_cid) ≡ true = ground (arith, h.mine) in
    rw (pending, mine)
      (record { done = refl; settled = refl; right = refl; status = refl; value = refl })

first_round :
    (i : Interrupt) (q : DriverQueue)
    → q.admin_pending ≡ true
    → IsHead i q
    → Gives
        (λ r. IsSettled (i.cqes q.cq_head) r.0)
        (drain (λ p cqe. ok (take_admin p cqe)) (q.depth + 1) i.cqes q 0)
unfolding drain
first_round i q pending h =
    let c = i.cqes q.cq_head in
    let one_more : q.depth + 1 ≡ suc q.depth = omega arith in
    let fresh : (c.flags % 2 == q.cq_phase) ≡ true = ground (arith, h.fresh) in
    rw (one_more, fresh)
      (Gives-then (λ r. IsSettled c r.0) (λ r. IsSettled c r.0)
        (drain (λ p cqe. ok (take_admin p cqe)) q.depth i.cqes (consume (take_admin q c).0) 1) _
        (drain-IsSettled c q.depth 1 i.cqes (consume (take_admin q c).0) (taken i q pending h))
        (λ r w. w))

irq-taken :
    (i : Interrupt) (q : DriverQueue)
    → q.admin_pending ≡ true
    → IsHead i q
    → Gives (λ r. IsSettled (i.cqes q.cq_head) r.0) (irq i q)
unfolding irq
irq-taken i q pending h =
    let c = i.cqes q.cq_head in
    rw h.ready (
      Gives-then (λ r. IsSettled c r.0) (λ r. IsSettled c r.0)
        (drain_admin_cq (q.depth + 1) i.cqes q) _
        (drain_admin_cq-IsSettled c (q.depth + 1) i.cqes q (first_round i q pending h)) (λ r w. w))

-- On an admin queue of 1 to 65535 entries with its head inside the ring: if the first interrupt
-- during the wait finds the controller ready and, at the head of the ring, a new completion with
-- the command's identifier, then the command comes back with that completion's answer, its result
-- or EIO for a status that is not 0, whatever other entries and interrupts follow.
pub admin_command-answer :
    (k : Kernel) (cmd : Command) (xs : List Resource) (s : Sys) (i : Interrupt)
    (is : List Interrupt)
    → IsIdle xs s.dev.admin
    → k.interrupts (wait_log s cmd) ≡ i ∷ is
    → IsHead i (start_admin s.dev.admin)
    → Succeeds (λ r. r.0 ≡ answer_of (i.cqes s.dev.admin.cq_head)) (admin_command k cmd s)
unfolding admin_command wait_for_completion start_admin
admin_command-answer k cmd xs s i is idle arrive head =
    let c = i.cqes s.dev.admin.cq_head in
    Succeeds-of-Gives _ (λ r. r.0 ≡ answer_of c) (admin_command k cmd s)
      (admin_command-Commanded k cmd xs s idle)
      (rw arrive (
        after_irqs c (irqs (i ∷ is) (start_admin s.dev.admin)) _ (
          irqs_after c i is (start_admin s.dev.admin)
            (irq-taken i (start_admin s.dev.admin) refl head))))
