-- ===== src/Driver/Recovery.antt =====
-- driver/openflash/openflash_queue.c and openflash_core.c: recovery from a request that has timed out
-- (openflash_reset_controller, openflash_reset_work, openflash_timeout).
use openflash_controller_lab.Base.{
  ℕ, ◌+◌, Bool, true, false, Option, none, some, List, [], ◌∷◌, ◌++◌, if◌then◌else◌, ltb, Outcome,
  ok, err, out_of_bounds, blocked,
}
use openflash_controller_lab.Base
use openflash_controller_lab.Abi.Reg
use openflash_controller_lab.Abi.Struct.{Completion}
use openflash_controller_lab.Driver.State.{
  BlkStatus, sts_timeout, DriverQueue, Event, clear_sq, clear_cq, wait_ready, freeze, unfreeze,
  schedule_reset,
}
use openflash_controller_lab.Driver.Completion.{io_irq, fail_io_requests}
use openflash_controller_lab.Driver.Kernel.{
  Kernel, ready, did, Gendisk, Action, ◌>>=◌, ◌>>◌, pure, get_dev, modify, note, noted, write_to,
  ask, read_from,
}
use openflash_controller_lab.Driver.Admin.{create_io_queue}
use openflash_controller_lab.Driver.Setup.{goto, set_admin, set_io, publish_admin}

-- The indices that the `memset`s and assignments start anew with.
abbrev pub rewound : DriverQueue → DriverQueue
rewound q = record q { sq_tail = 0; cq_head = 0; cq_phase = 1 }

-- The `memset`s of the I/O queue's rings. They are the driver's while the queue is up; else they were
-- given back, or never taken.
abbrev pub clear_io : Action (Unit {0})
clear_io s =
    if ltb s.dev.nr_queues 2
    then err out_of_bounds
    else ok (tt, record s { log = did (clear_cq 1) ∷ did (clear_sq 1) ∷ s.log })

unfoldable pub reset_controller : Kernel → Action ℕ
unfolding publish_admin create_io_queue
reset_controller k = do
  note (did (clear_sq 0))
  note (did (clear_cq 0))
  clear_io
  set_admin rewound
  set_io rewound
  write_to Reg.control 2
  status ← read_from k Reg.status
  publish_admin
  write_to Reg.control 1
  note (did wait_ready)
  ret ← ask k ready
  goto pure ret (create_io_queue k)

-- What is done to the I/O queue, with its events.
abbrev pub on_io : Outcome (DriverQueue × List Event) → Action (Unit {0})
on_io (ok (q, events)) s =
    ok (tt, record s { dev = record s.dev { io = q }; log = noted events s.log })
on_io (err e) s = err e

-- The interrupts of vector 1 that arrive during a wait, one after the other.
unfoldable pub io_irqs : List (ℕ → Completion) → DriverQueue → Outcome (DriverQueue × List Event)
io_irqs [] q = ok (q, [])
io_irqs (cqes ∷ rings) q =
    Base.◌>>=◌ (io_irq (q.depth + 1) cqes q)
      (λ r. Base.◌>>=◌ (io_irqs rings r.0) (λ r'. ok (r'.0, r.1 ++ r'.1)))

-- There are none while the handler is not requested, which is while the I/O queue is not up.
unfoldable pub take_interrupts : Kernel → Action (Unit {0})
unfolding io_irqs
take_interrupts k s =
    on_io
      (if ltb s.dev.nr_queues 2
        then ok (s.dev.io, [])
        else io_irqs (k.io_interrupts s.log) s.dev.io)
      s

unfoldable pub fail_requests : BlkStatus → Action (Unit {0})
fail_requests status s = on_io (fail_io_requests s.dev.nr_queues s.dev.io status) s

abbrev pub wait_drained : Kernel → Action (Unit {0})
wait_drained k s = if k.drained s.log s.dev.io then ok (tt, s) else err blocked

-- `blk_mq_freeze_queue`
unfoldable pub freeze_queue : Kernel → Action (Unit {0})
unfolding take_interrupts
freeze_queue k = do note (did freeze); take_interrupts k; wait_drained k

abbrev pub end_reset : Action (Unit {0})
end_reset = modify (λ dev. record dev { reset_pending = false })

-- The work between the test of the disk and the label `done`, and what of it follows the freezing.
unfoldable pub restart : Kernel → Action (Unit {0})
unfolding fail_requests reset_controller
restart k = do fail_requests sts_timeout; ret ← reset_controller k; note (did unfreeze); end_reset

unfoldable pub recover : Kernel → Action (Unit {0})
unfolding freeze_queue restart
recover k = do freeze_queue k; restart k

abbrev pub with_disk : Option Gendisk → Action (Unit {0}) → Action (Unit {0}) → Action (Unit {0})
with_disk none absent present = absent
with_disk (some d) absent present = present

unfoldable pub reset_work : Kernel → Action (Unit {0})
unfolding recover
reset_work k = do dev ← get_dev; with_disk dev.gendisk end_reset (recover k)

abbrev pub schedule : Action (Unit {0})
schedule = do modify (λ d. record d { reset_pending = true }); note (did schedule_reset)

-- `atomic_cmpxchg(&ofdev->reset_pending, 0, 1)`. The request is left to the work: BLK_EH_DONE.
unfoldable pub timeout : Action (Unit {0})
timeout = do dev ← get_dev; if dev.reset_pending then pure tt else schedule
