-- ===== src/Tests/Recovered.antt =====
-- The driver's commands, requests and recovery at concrete inputs: rings of four and of two entries,
-- and one slot.
use openflash_controller_lab.Base.{
  ℕ, ◌<◌, ◌≡◌, ◌≢◌, refl, sym, true, false, inl, arith, Option, none, some, List, [], ◌∷◌, ◌++◌,
  u16, get_elem?, Outcome, err, blocked, Succeeds,
}
use openflash_controller_lab.Abi.Opcode
use openflash_controller_lab.Driver.Completion
use openflash_controller_lab.Driver.Recovery
use openflash_controller_lab.Driver.State.{op_flush, Request, DriverQueue, freeze}
use openflash_controller_lab.Driver.Kernel.{
  Call, acquire, did, Interrupt, dma, irq, vectors, master, tag_set, disk, disk_added, Sys,
}
use openflash_controller_lab.Driver.Admin.{empty_command, admin_command, advance_cid, start_admin}
use openflash_controller_lab.Driver.Setup.{zeroed, sq_size, cq_size, list_size}
use openflash_controller_lab.Driver.IoSetup.{setup_io_queue, slot_with}
use openflash_controller_lab.Driver.Recovery.{take_interrupts, restart, reset_work}
use openflash_controller_lab.Driver.Probe.{described, new_dev}
use openflash_controller_lab.Driver.Request.{BlkRequest, queue_rq}
use openflash_controller_lab.Driver.Holds.{Holds, start, taken, admin_owned, io_owned}
use openflash_controller_lab.Driver.Waits.{IsIdle, Commanded, Replies, admin_command-Commanded}
use openflash_controller_lab.Driver.Replied.{IsHead, answer_of, admin_command-answer}
use openflash_controller_lab.Driver.Io.{IsSafe}
use openflash_controller_lab.Driver.Returned.{queue_rq-Succeeds}
use openflash_controller_lab.Driver.IoUnwind.{Built}
use openflash_controller_lab.Driver.IoBalance.{setup_io_queue-Built}
use openflash_controller_lab.Driver.Teardown.{IsAlive}
use openflash_controller_lab.Driver.Restart.{restart-IsAlive}
use openflash_controller_lab.Driver.Fail.{AllIdle}
use openflash_controller_lab.Driver.Frozen.{IsFreezing, reset_work-blocked}
use openflash_controller_lab.Tests.Lifecycle.{kernel, answers, all_idle, state_of, none_failed, ran}

-- The device once its admin queue is up, with rings of four entries.
abbrev admin : DriverQueue
admin = record zeroed { depth = 4; cq_phase = 1; sq_dma = 256; cq_dma = 128 }

abbrev admin_log : List Call
admin_log =
    acquire (irq 0)
    ∷ acquire vectors
    ∷ acquire (dma (cq_size admin) 128)
    ∷ acquire (dma (sq_size admin) 256)
    ∷ acquire master
    ∷ []

abbrev admin_up : Sys
admin_up = record {
  dev = record (new_dev 0) { has_queues = true; admin = admin; nr_queues = 1; queue_depth = 2 };
  log = admin_log;
}

admin-IsIdle : IsIdle (admin_owned admin) admin
admin-IsIdle = record { below = omega arith; small = omega arith; owns = refl }

admin_log-Holds : Holds admin_log (admin_owned admin ++ (master ∷ []))
admin_log-Holds = taken _ (taken _ (taken _ (taken _ (taken _ start))))

abbrev identify : Interrupt
identify = record { status = 1; cqes = answers 0 }

admin_command-Commanded_example :
    Succeeds
      (λ r.
        Replies (identify ∷ []) 1 r.0
        × Commanded (admin_owned admin) admin_up r.1
        × (advance_cid 0 ≢ 0))
      (admin_command kernel (empty_command Opcode.identify) admin_up)
admin_command-Commanded_example =
    admin_command-Commanded kernel (empty_command Opcode.identify) (admin_owned admin) admin_up
      admin-IsIdle

identify-IsHead : IsHead identify (start_admin admin)
unfolding start_admin
identify-IsHead = record { ready = refl; fresh = refl; mine = refl }

admin_command-answer_example :
    Succeeds
      (λ r. r.0 ≡ answer_of (answers 0 0))
      (admin_command kernel (empty_command Opcode.identify) admin_up)
admin_command-answer_example =
    admin_command-answer kernel (empty_command Opcode.identify) (admin_owned admin) admin_up
      identify [] admin-IsIdle refl identify-IsHead

small_depth : 2 < u16
small_depth = omega arith

some_depth : 0 < 2
some_depth = omega arith

setup_io_queue-Built_example :
    Succeeds
      (Built kernel 2 some_depth small_depth (admin_owned admin) (master ∷ []) admin_log)
      (setup_io_queue kernel admin_up)
setup_io_queue-Built_example =
    setup_io_queue-Built kernel 2 some_depth small_depth (admin_owned admin) (master ∷ []) admin_up
      (record {
        idle = admin-IsIdle;
        has = refl;
        no_disk = refl;
        one_queue = refl;
        held = admin_log-Holds;
      })
      refl refl

-- The device in use, with one slot in its I/O queue.
abbrev slot : Request
slot = slot_with 256

abbrev io : Request → DriverQueue
io r = record zeroed {
  qid = 1;
  depth = 2;
  cq_phase = 1;
  sq_dma = 128;
  cq_dma = 64;
  requests = r ∷ [];
}

io-IsSafe : IsSafe (io_owned (io slot)) (io slot)
io-IsSafe = record {
  valid = record { slots = refl; fits = (omega arith, tt) };
  below = omega arith;
  small = omega arith;
  owns = refl;
}

abbrev in_use : Request → Sys
in_use r = record {
  dev = record admin_up.dev { io = io r; nr_queues = 2; gendisk = some (described admin_up.dev) };
  log =
      acquire disk_added
      ∷ acquire disk
      ∷ acquire tag_set
      ∷ acquire (irq 1)
      ∷ acquire (dma list_size 256)
      ∷ acquire (dma (cq_size (io r)) 64)
      ∷ acquire (dma (sq_size (io r)) 128)
      ∷ admin_log;
}

in_use-IsAlive : IsAlive (admin_owned admin) (io_owned (io slot)) (in_use slot)
in_use-IsAlive = record {
  idle = admin-IsIdle;
  has = refl;
  gendisk = described admin_up.dev;
  present = refl;
  io = inl (refl, io-IsSafe);
  held = taken _ (taken _ (taken _ (taken _ (taken _ (taken _ (taken _ admin_log-Holds))))));
}

restart-IsAlive_example :
    Succeeds
      (λ r. IsAlive (admin_owned admin) (io_owned (io slot)) r.1 × (r.1.dev.reset_pending ≡ false))
      (restart kernel (in_use slot))
restart-IsAlive_example =
    restart-IsAlive (admin_owned admin) (io_owned (io slot)) kernel (in_use slot) in_use-IsAlive
      refl

abbrev flush : BlkRequest
flush = record {
  number = 7;
  pos = 0;
  bytes = 0;
  tag = 0;
  op = op_flush;
  fua = false;
  nr_phys_segments = 0;
  segments = [];
}

queue_rq-Succeeds_example :
    Succeeds (λ out. IsSafe (io_owned (io slot)) out.queue) (queue_rq 3 (io slot) flush)
queue_rq-Succeeds_example =
    queue_rq-Succeeds flush (io_owned (io slot)) 3 (io slot) slot io-IsSafe refl (omega arith)

-- The disk without its I/O queue.
abbrev not_up : Sys
not_up = record admin_up { dev = record admin_up.dev { gendisk = some (described admin_up.dev) } }

-- The request that the controller does not answer.
abbrev waiting : Request
waiting = record slot { rq = some 7 }

kernel-IsFreezing : IsFreezing kernel
kernel-IsFreezing log q empty = all_idle-AllIdle q.requests empty
  where
    all_idle-AllIdle : (requests : List Request) → all_idle requests ≡ true → AllIdle requests
    all_idle-AllIdle [] h = tt
    all_idle-AllIdle (r ∷ rs) h = first r.rq refl h (λ h'. all_idle-AllIdle rs h')
      where
        first :
            (o : Option ℕ)
            → o ≡ r.rq
            → elim o [ none ↦ all_idle rs | some rq ↦ false ] ≡ true
            → (all_idle rs ≡ true → AllIdle rs)
            → AllIdle (r ∷ rs)
        first none idle h' others = (sym idle, others h')
        first (some rq) busy h' others = cc

abbrev taken_while_frozen : Outcome (Unit {0} × Sys)
taken_while_frozen =
    take_interrupts kernel (record (in_use waiting) { log = did freeze ∷ (in_use waiting).log })

none_faults : none_failed taken_while_frozen ≡ true
unfolding take_interrupts Recovery.io_irqs Completion.io_irq Completion.drain
none_faults = refl

still_waiting : get_elem? (state_of taken_while_frozen).dev.io.requests 0 ≡ some waiting
unfolding take_interrupts Recovery.io_irqs Completion.io_irq Completion.drain
still_waiting = refl

reset_work-blocked_example : reset_work kernel (in_use waiting) ≡ err blocked
reset_work-blocked_example =
    reset_work-blocked kernel kernel-IsFreezing (in_use waiting) (state_of taken_while_frozen)
      (described admin_up.dev) 0 7 waiting refl (ran taken_while_frozen none_faults) still_waiting
      refl
