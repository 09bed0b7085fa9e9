-- ===== src/Driver/Teardown.antt =====
-- driver/openflash/openflash_queue.c and openflash_core.c: what the ways out give back.
use openflash_controller_lab.Base.{
  ℕ, ◌+◌, ◌-◌, ◌≡◌, refl, sym, ap, subst, ◌⊎◌, inl, inr, true, false, arith, some, List, [], ◌∷◌,
  ◌++◌, append_assoc, ltb, Outcome, ok, err, Succeeds, Gives, Succeeds-bind,
}
use openflash_controller_lab.Abi.Struct.{Completion}
use openflash_controller_lab.Driver.State.{BlkStatus, DriverQueue, Event}
use openflash_controller_lab.Driver.Completion.{io_irq, fail_io_requests}
use openflash_controller_lab.Driver.Fail.{AllIdle, released-AllIdle, fail_all-returns}
use openflash_controller_lab.Driver.Kernel.{
  Kernel, Resource, dma, irq, master, tag_set, disk, disk_added, release, Dev, Gendisk, Sys,
}
use openflash_controller_lab.Driver.Waits.{IsIdle}
use openflash_controller_lab.Driver.Io.{IsSafe, io_irq-IsSafe, fail_io_requests-IsSafe}
use openflash_controller_lab.Driver.Holds.{
  Holds, given, other, noted-Holds, lists, io_owned, admin_owned,
}
use openflash_controller_lab.Driver.Balance.{follow_lem}
use openflash_controller_lab.Driver.Lists.{Freed, free_lists_up-Freed}
use openflash_controller_lab.Driver.Setup.{
  sq_size, cq_size, release_admin_queue, teardown_admin_queue,
}
use openflash_controller_lab.Driver.IoSetup.{free_lists_up, release_io_queue, teardown_io_queue}
use openflash_controller_lab.Driver.Recovery.{io_irqs, on_io, take_interrupts, fail_requests}
use openflash_controller_lab.Driver.Probe.{clear_master, undo_admin}

-- The I/O queue is up and holds `I`, or it is not and holds nothing.
abbrev pub IoState : List Resource → Dev → Type 0
IoState I dev = ((dev.nr_queues ≡ 2) × IsSafe I dev.io) ⊎ ((dev.nr_queues ≡ 1) × (I ≡ []))

module _ (I rest : List Resource) where
  abbrev pub IoGone : Sys → Unit {0} × Sys → Type 0
  IoGone s r =
      Holds r.1.log rest
      × (r.1.dev.admin ≡ s.dev.admin)
      × (r.1.dev.has_queues ≡ s.dev.has_queues)
      × (r.1.dev.io ≡ s.dev.io)

  release_io_queue-IoGone :
      (s : Sys)
      → IsSafe I s.dev.io
      → Holds s.log (io_owned s.dev.io ++ rest)
      → Succeeds (IoGone s) (release_io_queue s)
  unfolding release_io_queue
  release_io_queue-IoGone s safe h =
      let zs =
        dma (cq_size s.dev.io) s.dev.io.cq_dma ∷ dma (sq_size s.dev.io) s.dev.io.sq_dma ∷ rest in
      let held : Holds s.log (irq 1 ∷ (lists s.dev.io.requests ++ zs)) =
        subst (λ (xs : List Resource). Holds s.log (irq 1 ∷ xs))
          (append_assoc (lists s.dev.io.requests)
            (dma (cq_size s.dev.io) s.dev.io.cq_dma ∷ dma (sq_size s.dev.io) s.dev.io.sq_dma ∷ [])
            rest)
          h in
      let s' : Sys = record s { log = release (irq 1) ∷ s.log } in
      follow_lem (Freed s' zs) (IoGone s) (free_lists_up (s.dev.io.depth - 1) 0 s') _
        (free_lists_up-Freed (s.dev.io.depth - 1) 0 s' zs (omega (arith, safe.valid.slots))
          (given _ held))
        (λ u s'' (freed : Freed s' zs (u, s'')). (
          given _ (given _ freed.0),
          ap (λ (dev : Dev). dev.admin) freed.1,
          ap (λ (dev : Dev). dev.has_queues) freed.1,
          ap (λ (dev : Dev). dev.io) freed.1,
        ))

  pub teardown_io_queue-IoGone :
      (s : Sys)
      → IoState I s.dev
      → Holds s.log (I ++ rest)
      → Succeeds (IoGone s) (teardown_io_queue s)
  unfolding teardown_io_queue
  teardown_io_queue-IoGone s (inl (two, safe)) h =
      let up : ltb s.dev.nr_queues 2 ≡ false = ground (arith, two) in
      rw up (
        release_io_queue-IoGone s safe
          (subst (λ (xs : List Resource). Holds s.log (xs ++ rest)) (sym safe.owns) h))
  teardown_io_queue-IoGone s (inr (one, nothing)) h =
      let down : ltb s.dev.nr_queues 2 ≡ true = ground (arith, one) in
      rw down (subst (λ (xs : List Resource). Holds s.log (xs ++ rest)) nothing h, refl, refl, refl)

module _ (k : Kernel) (A rest : List Resource) where
  pub teardown_admin_queue-Gone :
      (s : Sys)
      → s.dev.has_queues ≡ true
      → admin_owned s.dev.admin ≡ A
      → Holds s.log (A ++ rest)
      → Succeeds (λ r. Holds r.1.log rest × (r.1.dev.io ≡ s.dev.io)) (teardown_admin_queue k s)
  unfolding teardown_admin_queue release_admin_queue
  teardown_admin_queue-Gone s has owns h =
      let held : Holds s.log (admin_owned s.dev.admin ++ rest) =
        subst (λ (xs : List Resource). Holds s.log (xs ++ rest)) (sym owns) h in
      rw has (given _ (given _ (given _ (given _ (other _ (other _ held))))), refl)

  -- The way out of the probe after the admin queue: the admin queue's resources and the mastering.
  pub undo_admin-Gone :
      (e : ℕ) (s : Sys)
      → s.dev.has_queues ≡ true
      → admin_owned s.dev.admin ≡ A
      → rest ≡ master ∷ []
      → Holds s.log (A ++ rest)
      → Succeeds (λ r. (r.0 ≡ e) × Holds r.1.log []) (undo_admin k e s)
  unfolding undo_admin clear_master
  undo_admin-Gone e s has owns only h =
      follow_lem (λ r. Holds r.1.log rest × (r.1.dev.io ≡ s.dev.io))
        (λ r. (r.0 ≡ e) × Holds r.1.log []) (teardown_admin_queue k s) _
        (teardown_admin_queue-Gone s has owns h)
        (λ u s' (left : Holds s'.log rest × (s'.dev.io ≡ s.dev.io)).
          (refl, given _ (subst (Holds s'.log) only left.0)))

-- The state between a probe that has succeeded and the removal.
pub record IsAlive (A I : List Resource) (s : Sys) : Type 0 where
  pub idle : IsIdle A s.dev.admin
  pub has : s.dev.has_queues ≡ true
  pub gendisk : Gendisk
  pub present : s.dev.gendisk ≡ some gendisk
  pub io : IoState I s.dev
  pub held : Holds s.log (disk_added ∷ disk ∷ tag_set ∷ (I ++ (A ++ (master ∷ []))))

-- What is done to the I/O queue alone, by an action that cannot fault while the queue is valid.
pub record OnlyIo (I : List Resource) (s s' : Sys) : Type 0 where
  pub io : IoState I s'.dev
  pub others : s'.dev ≡ record s.dev { io = s'.dev.io }
  pub held : (ys : List Resource) → Holds s.log ys → Holds s'.log ys

-- After failing the requests no slot holds one, unless the I/O queue is not up.
pub fail_requests-AllIdle :
    (status : BlkStatus) (I : List Resource) (s : Sys)
    → IoState I s.dev
    → Gives (λ r. (s.dev.nr_queues ≡ 1) ⊎ AllIdle r.1.dev.io.requests) (fail_requests status s)
unfolding fail_requests fail_io_requests
fail_requests-AllIdle status I s (inl (two, safe)) =
    let up : ltb s.dev.nr_queues 2 ≡ false = ground (arith, two) in
    rw (up, fail_all-returns s.dev.io.requests status safe.valid.fits)
      (inr (released-AllIdle s.dev.io.requests))
fail_requests-AllIdle status I s (inr (one, nothing)) =
    let down : ltb s.dev.nr_queues 2 ≡ true = ground (arith, one) in rw down (inl one)

module _ (I : List Resource) where
  pub on_io-OnlyIo :
      (o : Outcome (DriverQueue × List Event)) (s : Sys)
      → (s.dev.nr_queues ≡ 2)
      → Succeeds (λ r. IsSafe I r.0) o
      → Succeeds (λ r. OnlyIo I s r.1) (on_io o s)
  on_io-OnlyIo (err e) s two h = h
  on_io-OnlyIo (ok (q, events)) s two safe = record {
    io = inl (two, safe);
    others = refl;
    held = λ ys h. noted-Holds events h;
  }

  io_irqs-IsSafe :
      (rings : List (ℕ → Completion)) (q : DriverQueue)
      → IsSafe I q
      → Succeeds (λ r. IsSafe I r.0) (io_irqs rings q)
  unfolding io_irqs
  io_irqs-IsSafe [] q safe = safe
  io_irqs-IsSafe (cqes ∷ rings) q safe =
      Succeeds-bind (λ r. IsSafe I r.0) (λ r. IsSafe I r.0) (io_irq (q.depth + 1) cqes q) _
        (io_irq-IsSafe I cqes q safe)
        (λ r safe'.
          Succeeds-bind (λ r'. IsSafe I r'.0) (λ r'. IsSafe I r'.0) (io_irqs rings r.0) _
            (io_irqs-IsSafe rings r.0 safe') (λ r' safe''. safe''))

  pub unchanged : (s : Sys) → IoState I s.dev → OnlyIo I s s
  unchanged s io = record { io = io; others = refl; held = λ ys h. h }

  pub take_interrupts-OnlyIo :
      (k : Kernel) (s : Sys)
      → IoState I s.dev
      → Succeeds (λ r. OnlyIo I s r.1) (take_interrupts k s)
  unfolding take_interrupts
  take_interrupts-OnlyIo k s (inl (two, safe)) =
      let up : ltb s.dev.nr_queues 2 ≡ false = ground (arith, two) in
      rw up (
        on_io-OnlyIo (io_irqs (k.io_interrupts s.log) s.dev.io) s two
          (io_irqs-IsSafe (k.io_interrupts s.log) s.dev.io safe))
  take_interrupts-OnlyIo k s (inr (one, nothing)) =
      let down : ltb s.dev.nr_queues 2 ≡ true = ground (arith, one) in
      rw down (unchanged s (inr (one, nothing)))

  no_queue :
      (s : Sys) (status : BlkStatus)
      → ltb s.dev.nr_queues 2 ≡ true
      → fail_io_requests s.dev.nr_queues s.dev.io status ≡ ok (s.dev.io, [])
  unfolding fail_io_requests
  no_queue s status down = rw down refl

  pub fail_requests-OnlyIo :
      (status : BlkStatus) (s : Sys)
      → IoState I s.dev
      → Succeeds (λ r. OnlyIo I s r.1) (fail_requests status s)
  unfolding fail_requests
  fail_requests-OnlyIo status s (inl (two, safe)) =
      on_io-OnlyIo (fail_io_requests s.dev.nr_queues s.dev.io status) s two
        (fail_io_requests-IsSafe I s.dev.nr_queues s.dev.io status safe)
  fail_requests-OnlyIo status s (inr (one, nothing)) =
      rw (no_queue s status (ground (arith, one))) (unchanged s (inr (one, nothing)))
