-- ===== src/Driver/Running.antt =====
-- driver/openflash/openflash_core.c and openflash_queue.c: the driver from its probe to its removal.
-- Between the two the kernel runs its handlers in any order.
use openflash_controller_lab.Base.{
  ℕ, ◌+◌, ◌≡◌, sym, ap, subst, inl, inr, Bool, true, false, arith, Option, List, [], if◌then◌else◌,
  ltb, Outcome, ok, err, Succeeds, Settles, ◌⊎◌, Succeeds-weaken, Gives,
}
use openflash_controller_lab.Abi.Struct.{Completion}
use openflash_controller_lab.Driver.State.{DriverQueue, Event, schedule_reset}
use openflash_controller_lab.Driver.Completion.{io_irq}
use openflash_controller_lab.Driver.Request.{BlkRequest, Queued, queue_rq}
use openflash_controller_lab.Driver.Kernel.{
  Kernel, Interrupt, Resource, Gendisk, Sys, Action, follow, noted, pure,
}
use openflash_controller_lab.Driver.Admin.{irq}
use openflash_controller_lab.Driver.Waits.{IsIdle}
use openflash_controller_lab.Driver.Io.{IsSafe, io_irq-IsSafe}
use openflash_controller_lab.Driver.Queued.{queue_rq-IsSafe}
use openflash_controller_lab.Driver.Holds.{Holds, other, noted-Holds}
use openflash_controller_lab.Driver.Recovery.{
  on_io, freeze_queue, restart, recover, with_disk, end_reset, schedule, reset_work, timeout,
}
use openflash_controller_lab.Driver.Probe.{probe, remove}
use openflash_controller_lab.Driver.Teardown.{IoState, IsAlive, OnlyIo, unchanged, on_io-OnlyIo}
use openflash_controller_lab.Driver.Restart.{OnlyIo-IsAlive, freeze_queue-IsAlive, restart-IsAlive}
use openflash_controller_lab.Driver.Fail.{AllIdle}
use openflash_controller_lab.Driver.Dangling.{restart-freed}
use openflash_controller_lab.Driver.Removal.{IsStuck, remove-Removed}
use openflash_controller_lab.Driver.Arrival.{Probed, probe-Probed}
use openflash_controller_lab.Driver.Idle.{irq-IsIdle}

-- What the kernel calls: a request for the queue, the two interrupts, the handler of a request that
-- takes too long, and the work that it schedules.
pub data Entry : Type 0 where
  request : BlkRequest → Entry
  admin_interrupt : Interrupt → Entry
  io_interrupt : (ℕ → Completion) → Entry
  timed_out reset : Entry

abbrev pub on_queue : Outcome Queued → Action (Unit {0})
on_queue (ok out) s =
    ok (tt, record s { dev = record s.dev { io = out.queue }; log = noted out.events s.log })
on_queue (err e) s = err e

abbrev pub on_admin : Outcome (DriverQueue × List Event × Bool) → Action (Unit {0})
on_admin (ok (q, events, handled)) s =
    ok (tt, record s { dev = record s.dev { admin = q }; log = noted events s.log })
on_admin (err e) s = err e

abbrev pub count_dropped :
    Outcome (DriverQueue × List Event × ℕ) → Outcome (DriverQueue × List Event)
count_dropped (ok (q, events, count)) = ok (q, events)
count_dropped (err e) = err e

-- The handler of vector 1 is requested while the I/O queue is up, and not before.
unfoldable pub run : Kernel → Entry → Action (Unit {0})
unfolding queue_rq irq io_irq timeout reset_work
run k (request rq) s = on_queue (queue_rq s.dev.capabilities s.dev.io rq) s
run k (admin_interrupt i) s = on_admin (irq i s.dev.admin) s
run k (io_interrupt cqes) s =
    on_io
      (if ltb s.dev.nr_queues 2
        then ok (s.dev.io, [])
        else count_dropped (io_irq (s.dev.io.depth + 1) cqes s.dev.io))
      s
run k timed_out s = timeout s
run k reset s = reset_work k s

-- The states that the driver comes to.
pub data Reach (k : Kernel) (s : Sys) : Sys → Type 0 where
  here : Reach k s s
  after : {s1 s2 : Sys} (e : Entry) → Reach k s s1 → run k e s1 ≡ ok (tt, s2) → Reach k s s2

module _ (A I : List Resource) where
  abbrev Alive : Unit {0} × Sys → Type 0
  Alive r = IsAlive A I r.1

  on_admin-IsAlive :
      (o : Outcome (DriverQueue × List Event × Bool)) (s : Sys)
      → IsAlive A I s
      → Succeeds (λ r. IsIdle A r.0) o
      → Succeeds Alive (on_admin o s)
  on_admin-IsAlive (err e) s v h = h
  on_admin-IsAlive (ok (q, events, handled)) s v idle = record {
    idle = idle;
    has = v.has;
    gendisk = v.gendisk;
    present = v.present;
    io = v.io;
    held = noted-Holds events v.held;
  }

  on_queue-IsAlive :
      (o : Outcome Queued) (s : Sys)
      → IsAlive A I s
      → ((xs : List Resource) → IsSafe xs s.dev.io → Gives (λ out. IsSafe xs out.queue) o)
      → Gives Alive (on_queue o s)
  on_queue-IsAlive (err e) s v h = tt
  on_queue-IsAlive (ok out) s v h = record {
    idle = v.idle;
    has = v.has;
    gendisk = v.gendisk;
    present = v.present;
    io = either v.io;
    held = noted-Holds out.events v.held;
  }
    where
      either : IoState I s.dev → IoState I (record s.dev { io = out.queue })
      either (inl (two, safe)) = inl (two, h I safe)
      either (inr down) = inr down

  io_interrupt-OnlyIo :
      (cqes : ℕ → Completion) (s : Sys)
      → IoState I s.dev
      → Succeeds
          (λ r. OnlyIo I s r.1)
          (on_io
            (if ltb s.dev.nr_queues 2
              then ok (s.dev.io, [])
              else count_dropped (io_irq (s.dev.io.depth + 1) cqes s.dev.io))
            s)
  io_interrupt-OnlyIo cqes s (inl (two, safe)) =
      let up : ltb s.dev.nr_queues 2 ≡ false = ground (arith, two) in
      rw up (
        on_io-OnlyIo I (count_dropped (io_irq (s.dev.io.depth + 1) cqes s.dev.io)) s two
          (kept (io_irq (s.dev.io.depth + 1) cqes s.dev.io) (io_irq-IsSafe I cqes s.dev.io safe)))
    where
      kept :
          (o : Outcome (DriverQueue × List Event × ℕ))
          → Succeeds (λ r. IsSafe I r.0) o
          → Succeeds (λ r. IsSafe I r.0) (count_dropped o)
      kept (ok (q, events, count)) h = h
      kept (err e) h = h
  io_interrupt-OnlyIo cqes s (inr (one, nothing)) =
      let down : ltb s.dev.nr_queues 2 ≡ true = ground (arith, one) in
      rw down (unchanged I s (inr (one, nothing)))

  timeout-IsAlive : (s : Sys) → IsAlive A I s → Succeeds Alive (timeout s)
  unfolding timeout
  timeout-IsAlive s v =
      elim s.dev.reset_pending as (λ b. Succeeds Alive ((if b then pure tt else schedule) s)) [
        | true ↦ v
        | false ↦ record {
          idle = v.idle;
          has = v.has;
          gendisk = v.gendisk;
          present = v.present;
          io = v.io;
          held = other schedule_reset v.held;
        }
      ]

  Gives-of-Succeeds : (o : Outcome (Unit {0} × Sys)) → Succeeds Alive o → Gives Alive o
  Gives-of-Succeeds (ok r) h = h
  Gives-of-Succeeds (err e) h = tt

  reset_work-IsAlive : (k : Kernel) (s : Sys) → IsAlive A I s → Gives Alive (reset_work k s)
  unfolding reset_work recover
  reset_work-IsAlive k s v =
      let present = ap (λ (o : Option Gendisk). with_disk o end_reset (recover k) s) v.present in
      subst (Gives Alive) (sym present)
        (then_restart (freeze_queue k s) (freeze_queue-IsAlive A I k s v))
    where
      then_restart :
          (o : Outcome (Unit {0} × Sys)) → Gives Alive o → Gives Alive (follow (λ u. restart k) o)
      then_restart (err e) h = tt
      then_restart (ok (u, s')) h = elim h.io [
        | inl (two, safe) ↦
            Gives-of-Succeeds (restart k s')
              (Succeeds-weaken _ Alive (restart k s') (restart-IsAlive A I k s' h two) (λ r w. w.0))
        | inr (one, nothing) ↦ rw (restart-freed k s' one) tt
      ]

  -- Every handler leaves the device alive with all that it holds, where it returns and makes no access
  -- outside the slots.
  pub run-IsAlive : (k : Kernel) (e : Entry) (s : Sys) → IsAlive A I s → Gives Alive (run k e s)
  unfolding run
  run-IsAlive k (request rq) s v =
      on_queue-IsAlive (queue_rq s.dev.capabilities s.dev.io rq) s v
        (λ xs safe. queue_rq-IsSafe xs rq s.dev.capabilities s.dev.io safe)
  run-IsAlive k (admin_interrupt i) s v =
      Gives-of-Succeeds (run k (admin_interrupt i) s)
        (on_admin-IsAlive (irq i s.dev.admin) s v (irq-IsIdle A i s.dev.admin v.idle))
  run-IsAlive k (io_interrupt cqes) s v = Gives-of-Succeeds (run k (io_interrupt cqes) s) (
      Succeeds-weaken (λ r. OnlyIo I s r.1) Alive (run k (io_interrupt cqes) s)
        (io_interrupt-OnlyIo cqes s v.io) (λ r a. OnlyIo-IsAlive A I s r.1 a v))
  run-IsAlive k timed_out s v = Gives-of-Succeeds (timeout s) (timeout-IsAlive s v)
  run-IsAlive k reset s v = reset_work-IsAlive k s v

  Reach-IsAlive : (k : Kernel) (s s' : Sys) → IsAlive A I s → Reach k s s' → IsAlive A I s'
  Reach-IsAlive k s s' v here = v
  Reach-IsAlive k s s' v (after {s1} e way goes) =
      subst (Gives Alive) goes (run-IsAlive k e s1 (Reach-IsAlive k s s1 v way))

-- Whatever the kernel and the controller answer, and whatever handlers run in whatever order after
-- a probe that found nothing held and succeeded, as long as they return: removing the driver makes no
-- access outside the slots. It returns, and has given back all coherent memory, interrupts, vectors, bus
-- mastering, the tag set and the disk that were taken since the probe, each once, and no slot holds a
-- request any more, unless the I/O queue was not up. Or it never returns, and then because
-- del_gendisk's wait for the requests that were started is not over with the interrupts that arrive
-- meanwhile.
pub remove-probe :
    (k : Kernel) (s s1 s2 : Sys)
    → Holds s.log []
    → probe k s ≡ ok (0, s1)
    → Reach k s1 s2
    → Settles
        (λ r. Holds r.1.log [] × ((s2.dev.nr_queues ≡ 1) ⊎ AllIdle r.1.dev.io.requests))
        (IsStuck k s2)
        (remove k s2)
remove-probe k s s1 s2 h up way =
    let (A, I, alive) : (A : List Resource) × (I : List Resource) × IsAlive A I s1 =
      subst (Succeeds Probed) up (probe-Probed k s h) in
    remove-Removed k A I s2 (Reach-IsAlive A I k s1 s2 alive way)
