-- ===== src/Driver/Frozen.antt =====
-- driver/openflash/openflash_core.c, openflash_reset_work: what freezing the queue first means for the
-- requests that have timed out.
use openflash_controller_lab.Base.{
  ℕ, zero, suc, ◌≡◌, ◌∙◌, refl, sym, ap, inl, inr, true, false, Bool-cases, Option, none, some,
  List, [], ◌∷◌, ltb, get_elem?, Outcome, ok, err, blocked, Gives, Succeeds, ◌⊎◌, subst,
}
use mathlib.Core.Option.{some-injective, none-ne-some}
use openflash_controller_lab.Driver.State.{synchronize_irq, BlkStatus, Request, DriverQueue, freeze}
use openflash_controller_lab.Driver.Completion.{
  finish_request, fail_one, fail_all, fail_io_requests,
}
use openflash_controller_lab.Driver.Kernel.{Kernel, Call, did, Gendisk, Sys, follow}
use openflash_controller_lab.Driver.Fail.{AllIdle}
use openflash_controller_lab.Driver.Recovery.{
  take_interrupts, fail_requests, wait_drained, freeze_queue, recover, with_disk, end_reset,
  reset_work,
}

-- What `blk_mq_freeze_queue` promises: it returns only once every request that was started has ended.
abbrev pub IsFreezing : Kernel → Type 0
IsFreezing k = (log : List Call) (q : DriverQueue) → k.drained log q ≡ true → AllIdle q.requests

idle_at :
    (requests : List Request) (i : ℕ) (r : Request)
    → AllIdle requests
    → get_elem? requests i ≡ some r
    → r.rq ≡ none
idle_at [] i r all found = absurd (none-ne-some _ found)
idle_at (r' ∷ rs) zero r all found =
    sym (ap (λ (x : Request). x.rq) (some-injective _ _ found)) ∙ all.0
idle_at (r' ∷ rs) (suc i) r all found = idle_at rs i r all.1 found

fail_one-idle : (r : Request) (status : BlkStatus) → r.rq ≡ none → fail_one r status ≡ ok (r, [])
unfolding fail_one
fail_one-idle r status idle =
    ap (λ (o : Option ℕ). elim o [ none ↦ ok (r, []) | some rq ↦ finish_request r rq status ]) idle

fail_all-AllIdle :
    (requests : List Request) (status : BlkStatus)
    → AllIdle requests
    → fail_all requests status ≡ ok (requests, [])
unfolding fail_all
fail_all-AllIdle [] status all = refl
fail_all-AllIdle (r ∷ rs) status all =
    rw (fail_one-idle r status all.0, fail_all-AllIdle rs status all.1) refl

-- What is done is at most the wait for a running handler.
abbrev pub OnlyWaits : Sys → Unit {0} × Sys → Type 0
OnlyWaits s r = (r.1.log ≡ s.log) ⊎ (r.1.log ≡ did (synchronize_irq 1) ∷ s.log)

fail_requests-AllIdle :
    (status : BlkStatus) (s : Sys)
    → AllIdle s.dev.io.requests
    → Succeeds (λ r. (r.1.dev ≡ s.dev) × OnlyWaits s r) (fail_requests status s)
unfolding fail_requests fail_io_requests
fail_requests-AllIdle status s all = elim (Bool-cases (ltb s.dev.nr_queues 2)) [
  | inl down ↦ rw down (refl, inl refl)
  | inr up ↦ rw (up, fail_all-AllIdle s.dev.io.requests status all) (refl, inr refl)
]

module _ (k : Kernel) (law : IsFreezing k) where
  wait_drained-AllIdle :
      (o : Outcome (Unit {0} × Sys))
      → Gives (λ r. AllIdle r.1.dev.io.requests) (follow (λ u. wait_drained k) o)
  wait_drained-AllIdle (err e) = tt
  wait_drained-AllIdle (ok (u, s)) = elim (Bool-cases (k.drained s.log s.dev.io)) [
    | inl empty ↦ rw empty (law s.log s.dev.io empty)
    | inr busy ↦ rw busy tt
  ]

  busy-drained :
      (s : Sys) (i rq : ℕ) (r : Request)
      → get_elem? s.dev.io.requests i ≡ some r
      → r.rq ≡ some rq
      → k.drained s.log s.dev.io ≡ false
  busy-drained s i rq r found waits = elim (Bool-cases (k.drained s.log s.dev.io)) [
    | inl empty ↦ absurd (
        none-ne-some rq
          (sym (idle_at s.dev.io.requests i r (law s.log s.dev.io empty) found) ∙ waits))
    | inr busy ↦ busy
  ]

  -- Once the queue is frozen there is no request left that could be failed: no request ends, nothing is
  -- unmapped and the device stays as it is.
  pub fail_requests-frozen :
      (status : BlkStatus) (s s' : Sys)
      → freeze_queue k s ≡ ok (tt, s')
      → Succeeds (λ r. (r.1.dev ≡ s'.dev) × OnlyWaits s' r) (fail_requests status s')
  unfolding freeze_queue
  fail_requests-frozen status s s' froze = fail_requests-AllIdle status s' (
      subst (Gives (λ r. AllIdle r.1.dev.io.requests)) froze
        (wait_drained-AllIdle (take_interrupts k (record s { log = did freeze ∷ s.log }))))

  -- With a disk, and a kernel whose freezing ends only once every started request has ended: if a
  -- request still waits after the interrupts that arrive meanwhile, recovery never gets past the
  -- freezing, so it neither fails the request nor resets the controller.
  pub reset_work-blocked :
      (s s' : Sys) (g : Gendisk) (i rq : ℕ) (r : Request)
      → s.dev.gendisk ≡ some g
      → take_interrupts k (record s { log = did freeze ∷ s.log }) ≡ ok (tt, s')
      → get_elem? s'.dev.io.requests i ≡ some r
      → r.rq ≡ some rq
      → reset_work k s ≡ err blocked
  unfolding reset_work recover freeze_queue
  reset_work-blocked s s' g i rq r present taken found waits =
      let disk = ap (λ (o : Option Gendisk). with_disk o end_reset (recover k) s) present in
      disk ∙ rw (taken, busy-drained s' i rq r found waits) refl
