-- ===== src/Driver/Restart.antt =====
-- driver/openflash/openflash_queue.c, openflash_reset_controller, and openflash_core.c,
-- openflash_reset_work: the device through a reset.
use openflash_controller_lab.Base.{
  ◌/◌, ◌%◌, ◌≡◌, ◌∙◌, refl, sym, ap, subst, inl, inr, false, Bool-cases, arith, List, ◌∷◌, u32,
  Outcome, ok, err, Succeeds, Succeeds-weaken, ltb, Gives,
}
use openflash_controller_lab.Abi.Reg
use openflash_controller_lab.Driver.State.{
  sts_timeout, clear_sq, clear_cq, write_register, read_register, wait_ready, freeze, unfreeze,
}
use openflash_controller_lab.Driver.Kernel.{
  Kernel, Resource, ready, Call, did, Dev, Sys, follow, pure,
}
use openflash_controller_lab.Driver.Admin.{create_io_queue}
use openflash_controller_lab.Driver.Waits.{IsIdle, Commanded, create_io_queue-Commanded}
use openflash_controller_lab.Driver.Holds.{Holds, other}
use openflash_controller_lab.Driver.Balance.{follow_lem, goto_lem}
use openflash_controller_lab.Driver.Setup.{publish_admin}
use openflash_controller_lab.Driver.Recovery.{
  rewound, reset_controller, take_interrupts, fail_requests, wait_drained, freeze_queue, restart,
}
use openflash_controller_lab.Driver.Teardown.{
  IoState, IsAlive, OnlyIo, take_interrupts-OnlyIo, fail_requests-OnlyIo,
}

-- The calls up to the end of the wait for the controller.
abbrev pub reset_log : Sys → List Call
reset_log s =
    let q = s.dev.admin in
    did wait_ready
    ∷ did (write_register Reg.control 1)
    ∷ did (write_register Reg.admin_qsize q.depth)
    ∷ did (write_register Reg.admin_cq_hi ((q.cq_dma / u32) % u32))
    ∷ did (write_register Reg.admin_cq_lo (q.cq_dma % u32))
    ∷ did (write_register Reg.admin_sq_hi ((q.sq_dma / u32) % u32))
    ∷ did (write_register Reg.admin_sq_lo (q.sq_dma % u32))
    ∷ did (read_register Reg.status)
    ∷ did (write_register Reg.control 2)
    ∷ did (clear_cq 1)
    ∷ did (clear_sq 1)
    ∷ did (clear_cq 0)
    ∷ did (clear_sq 0)
    ∷ s.log

reset_log-Holds : (s : Sys) (ys : List Resource) → Holds s.log ys → Holds (reset_log s) ys
reset_log-Holds s ys h = other _ (
    other _ (
      other _ (
        other _ (
          other _
            (other _ (other _ (other _ (other _ (other _ (other _ (other _ (other _ h))))))))))))

module _ (A I : List Resource) where
  -- What keeps the device alive.
  pub OnlyIo-IsAlive : (s s' : Sys) → OnlyIo I s s' → IsAlive A I s → IsAlive A I s'
  OnlyIo-IsAlive s s' a v =
      let admin = ap (λ (dev : Dev). dev.admin) a.others in
      record {
        idle = subst (IsIdle A) (sym admin) v.idle;
        has = ap (λ (dev : Dev). dev.has_queues) a.others ∙ v.has;
        gendisk = v.gendisk;
        present = ap (λ (dev : Dev). dev.gendisk) a.others ∙ v.present;
        io = a.io;
        held = a.held _ v.held;
      }

  Commanded-IsAlive : (s s' : Sys) → Commanded A s s' → IsAlive A I s → IsAlive A I s'
  Commanded-IsAlive s s' c v = record {
    idle = c.idle;
    has = ap (λ (dev : Dev). dev.has_queues) c.others ∙ v.has;
    gendisk = v.gendisk;
    present = ap (λ (dev : Dev). dev.gendisk) c.others ∙ v.present;
    io = subst (λ (dev : Dev). IoState I dev) (sym c.others) v.io;
    held = c.held _ v.held;
  }

  rewound-IoState :
      (dev : Dev)
      → IoState I dev
      → IoState I (record dev { io = rewound dev.io; admin = rewound dev.admin })
  rewound-IoState dev (inl (two, safe)) = inl (
    two,
    record {
      valid = record { slots = safe.valid.slots; fits = safe.valid.fits };
      below = omega (arith, safe.below);
      small = safe.small;
      owns = safe.owns;
    },
  )
  rewound-IoState dev (inr down) = inr down

  module _ (k : Kernel) where
    -- Resetting the controller returns, whatever the controller answers, and leaves the device alive
    -- with all that it holds, if its I/O queue is up.
    pub reset_controller-IsAlive :
        (s : Sys)
        → IsAlive A I s
        → s.dev.nr_queues ≡ 2
        → Succeeds (λ r. IsAlive A I r.1) (reset_controller k s)
    unfolding reset_controller publish_admin
    reset_controller-IsAlive s v two =
        let up : ltb s.dev.nr_queues 2 ≡ false = ground (arith, two) in
        let s1 : Sys = record {
          dev = record s.dev { admin = rewound s.dev.admin; io = rewound s.dev.io };
          log = reset_log s;
        } in
        let v1 : IsAlive A I s1 = record {
          idle = record {
            below = omega (arith, v.idle.below);
            small = v.idle.small;
            owns = v.idle.owns;
          };
          has = v.has;
          gendisk = v.gendisk;
          present = v.present;
          io = rewound-IoState s.dev v.io;
          held = reset_log-Holds s _ v.held;
        } in
        rw up (
          goto_lem (λ r. IsAlive A I r.1) pure (k.answer ready (reset_log s)) (create_io_queue k) s1
            (λ e. v1)
            (Succeeds-weaken (λ r. Commanded A s1 r.1) (λ r. IsAlive A I r.1) (create_io_queue k s1)
              (create_io_queue-Commanded k A s1 v1.idle) (λ r c. Commanded-IsAlive s1 r.1 c v1)))

    -- For a device that is alive (its admin queue and its valid I/O queue up, its disk present), what
    -- openflash_reset_work does after the freezing returns, whatever the controller answers, clears no
    -- ring that is not the driver's, and leaves the device alive with all that it holds, and a new recovery
    -- can be scheduled.
    pub restart-IsAlive :
        (s : Sys)
        → IsAlive A I s
        → s.dev.nr_queues ≡ 2
        → Succeeds (λ r. IsAlive A I r.1 × (r.1.dev.reset_pending ≡ false)) (restart k s)
    unfolding restart
    restart-IsAlive s v two =
        follow_lem (λ r. OnlyIo I s r.1) (λ r. IsAlive A I r.1 × (r.1.dev.reset_pending ≡ false))
          (fail_requests sts_timeout s) _ (fail_requests-OnlyIo I sts_timeout s v.io)
          (λ u s1 (a : OnlyIo I s s1).
            follow_lem (λ r. IsAlive A I r.1)
              (λ r. IsAlive A I r.1 × (r.1.dev.reset_pending ≡ false)) (reset_controller k s1) _
              (reset_controller-IsAlive s1 (OnlyIo-IsAlive s s1 a v)
                (ap (λ (dev : Dev). dev.nr_queues) a.others ∙ two))
              (λ ret s2 (v2 : IsAlive A I s2). (
                record {
                  idle = v2.idle;
                  has = v2.has;
                  gendisk = v2.gendisk;
                  present = v2.present;
                  io = v2.io;
                  held = other unfreeze v2.held;
                },
                refl,
              )))

    -- The freezing itself, if it ends.
    pub freeze_queue-IsAlive :
        (s : Sys) → IsAlive A I s → Gives (λ r. IsAlive A I r.1) (freeze_queue k s)
    unfolding freeze_queue
    freeze_queue-IsAlive s v =
        let s1 : Sys = record s { log = did freeze ∷ s.log } in
        let v1 : IsAlive A I s1 = record {
          idle = v.idle;
          has = v.has;
          gendisk = v.gendisk;
          present = v.present;
          io = v.io;
          held = other freeze v.held;
        } in
        then_wait (take_interrupts k s1) (
          Succeeds-weaken (λ r. OnlyIo I s1 r.1) (λ r. IsAlive A I r.1) (take_interrupts k s1)
            (take_interrupts-OnlyIo I k s1 v.io) (λ r a. OnlyIo-IsAlive s1 r.1 a v1))
      where
        then_wait :
            (o : Outcome (Unit {0} × Sys))
            → Succeeds (λ r. IsAlive A I r.1) o
            → Gives (λ r. IsAlive A I r.1) (follow (λ u. wait_drained k) o)
        then_wait (err e) h = tt
        then_wait (ok (u, s')) h = elim (Bool-cases (k.drained s'.log s'.dev.io)) [
          | inl empty ↦ rw empty h
          | inr busy ↦ rw busy tt
        ]
