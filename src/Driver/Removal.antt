-- ===== src/Driver/Removal.antt =====
-- driver/openflash/openflash_core.c, openflash_remove: what is held, and what the slots hold, when it
-- returns.
use openflash_controller_lab.Base.{
  ◌≡◌, out_of_bounds, out_of_fuel, blocked, Succeeds-and-Gives, ◌∙◌, refl, sym, ap, subst, ◌⊎◌, inl,
  inr, true, false, Option, some, List, [], ◌∷◌, ◌++◌, Outcome, ok, err, Bool-cases, Settles,
  Settles-of-Succeeds, Succeeds,
}
use openflash_controller_lab.Driver.State.{sts_ioerr, Request, DriverQueue, cancel_reset}
use openflash_controller_lab.Driver.Fail.{AllIdle}
use openflash_controller_lab.Driver.Kernel.{
  Kernel, Action, follow, Resource, master, tag_set, disk, disk_added, release, did, Dev, Gendisk,
  Sys, pure,
}
use openflash_controller_lab.Driver.Holds.{Holds, given, other, admin_owned}
use openflash_controller_lab.Driver.Balance.{follow_lem}
use openflash_controller_lab.Driver.Setup.{teardown_admin_queue}
use openflash_controller_lab.Driver.IoSetup.{teardown_io_queue}
use openflash_controller_lab.Driver.Recovery.{
  take_interrupts, fail_requests, wait_drained, with_disk,
}
use openflash_controller_lab.Driver.Probe.{
  delete_disk, release_disk, unregister, unregister_block_device, remove,
}
use openflash_controller_lab.Driver.Teardown.{
  IoState, IoGone, IsAlive, OnlyIo, take_interrupts-OnlyIo, fail_requests-OnlyIo,
  fail_requests-AllIdle, teardown_io_queue-IoGone, teardown_admin_queue-Gone,
}

-- What follows an action that settles.
settle :
    {A B : Type 0} (P : A × Sys → Type 0) (Q : B × Sys → Type 0) (W : Type 0)
    (m : Outcome (A × Sys)) (f : A → Action B)
    → Settles P W m
    → ((a : A) (s : Sys) → P (a, s) → Settles Q W (f a s))
    → Settles Q W (follow f m)
settle P Q W (ok (a, s)) f h next = next a s h
settle P Q W (err out_of_bounds) f h next = h
settle P Q W (err out_of_fuel) f h next = h
settle P Q W (err blocked) f h next = h

module _ (k : Kernel) where
  -- The wait of `del_gendisk` never ends: with the interrupts that arrive meanwhile, not every request
  -- that was started has ended.
  abbrev pub IsStuck : Sys → Type 0
  IsStuck s =
      (s' : Sys) × (take_interrupts k
          (record s { log = release disk_added ∷ did cancel_reset ∷ s.log })
        ≡ ok (tt, s'))
      × (k.drained s'.log s'.dev.io ≡ false)

module _ (k : Kernel) (A I : List Resource) (start : Sys) where
  abbrev rest : List Resource
  rest = I ++ (A ++ (master ∷ []))

  abbrev cancelled : Sys
  cancelled = record start { log = did cancel_reset ∷ start.log }

  abbrev deleting : Sys
  deleting = record start { log = release disk_added ∷ did cancel_reset ∷ start.log }

  -- No slot holds a request, unless the I/O queue was not up.
  abbrev FreedSlots : Sys → Type 0
  FreedSlots s = (start.dev.nr_queues ≡ 1) ⊎ AllIdle s.dev.io.requests

  after_interrupts :
      (o : Outcome (Unit {0} × Sys))
      → take_interrupts k deleting ≡ o
      → Succeeds (λ r. OnlyIo I deleting r.1) o
      → Settles (λ r. OnlyIo I deleting r.1) (IsStuck k start) (follow (λ u. wait_drained k) o)
  after_interrupts (err e) taken h = absurd h
  after_interrupts (ok (u, s)) taken h = elim (Bool-cases (k.drained s.log s.dev.io)) [
    | inl empty ↦ rw empty h
    | inr busy ↦ rw busy (s, taken, busy)
  ]

  delete_disk-OnlyIo :
      IoState I start.dev
      → Settles (λ r. OnlyIo I deleting r.1) (IsStuck k start) (delete_disk k cancelled)
  unfolding delete_disk
  delete_disk-OnlyIo io =
      after_interrupts (take_interrupts k deleting) refl (take_interrupts-OnlyIo I k deleting io)

  -- Nothing but the I/O queue changes, and the disk's resources are given back.
  abbrev NoDisk : Unit {0} × Sys → Type 0
  NoDisk r =
      Holds r.1.log rest
      × IoState I r.1.dev
      × (admin_owned r.1.dev.admin ≡ A)
      × (r.1.dev.has_queues ≡ true)
      × FreedSlots r.1

  release_disk-NoDisk :
      (s : Sys)
      → OnlyIo I deleting s
      → admin_owned start.dev.admin ≡ A
      → start.dev.has_queues ≡ true
      → Holds start.log (disk_added ∷ disk ∷ tag_set ∷ rest)
      → Succeeds NoDisk (release_disk k s)
  unfolding release_disk
  release_disk-NoDisk s a owns has h =
      follow_lem (λ r. OnlyIo I s r.1 × ((s.dev.nr_queues ≡ 1) ⊎ AllIdle r.1.dev.io.requests))
        NoDisk (fail_requests sts_ioerr s) _
        (Succeeds-and-Gives (λ r. OnlyIo I s r.1)
          (λ r. (s.dev.nr_queues ≡ 1) ⊎ AllIdle r.1.dev.io.requests) (fail_requests sts_ioerr s)
          (fail_requests-OnlyIo I sts_ioerr s a.io) (fail_requests-AllIdle sts_ioerr I s a.io))
        (λ u s' (b : OnlyIo I s s' × ((s.dev.nr_queues ≡ 1) ⊎ AllIdle s'.dev.io.requests)).
          let same = b.0.others ∙ ap (λ (dev : Dev). record dev { io = s'.dev.io }) a.others in
          (
            given _ (given _ (b.0.held _ (a.held _ (given _ (other _ h))))),
            b.0.io,
            ap (λ (dev : Dev). admin_owned dev.admin) same ∙ owns,
            ap (λ (dev : Dev). dev.has_queues) same ∙ has,
            still_down s'.dev.io.requests b.1,
          ))
    where
      still_down :
          (requests : List Request)
          → (s.dev.nr_queues ≡ 1) ⊎ AllIdle requests
          → (start.dev.nr_queues ≡ 1) ⊎ AllIdle requests
      still_down requests (inl one) = inl (sym (ap (λ (dev : Dev). dev.nr_queues) a.others) ∙ one)
      still_down requests (inr idle) = inr idle

  unregister-NoDisk :
      IoState I start.dev
      → admin_owned start.dev.admin ≡ A
      → start.dev.has_queues ≡ true
      → Holds start.log (disk_added ∷ disk ∷ tag_set ∷ rest)
      → Settles NoDisk (IsStuck k start) (unregister k cancelled)
  unfolding unregister
  unregister-NoDisk io owns has h =
      settle (λ r. OnlyIo I deleting r.1) NoDisk (IsStuck k start) (delete_disk k cancelled) _
        (delete_disk-OnlyIo io)
        (λ u s a.
          Settles-of-Succeeds NoDisk (IsStuck k start) (release_disk k s)
            (release_disk-NoDisk s a owns has h))

  unregister_present :
      (g : Gendisk)
      → start.dev.gendisk ≡ some g
      → unregister_block_device k cancelled ≡ unregister k cancelled
  unfolding unregister_block_device
  unregister_present g present =
      ap (λ (o : Option Gendisk). with_disk o (pure tt) (unregister k) cancelled) present

  -- What the last two steps leave.
  abbrev pub Removed : Unit {0} × Sys → Type 0
  Removed r = Holds r.1.log [] × FreedSlots r.1

  -- For a device that is alive, `openflash_remove` returns, with nothing held, and no request in a slot
  -- unless the I/O queue was not up; or the wait of `del_gendisk` never ends.
  pub remove-Removed : IsAlive A I start → Settles Removed (IsStuck k start) (remove k start)
  unfolding remove
  remove-Removed alive =
      settle NoDisk Removed (IsStuck k start) (unregister_block_device k cancelled) _
        (subst (Settles NoDisk (IsStuck k start))
          (sym (unregister_present alive.gendisk alive.present))
          (unregister-NoDisk alive.io alive.idle.owns alive.has alive.held))
        (λ u s1 (gone : NoDisk (u, s1)). Settles-of-Succeeds Removed (IsStuck k start) _ (
          follow_lem (IoGone I (A ++ (master ∷ [])) s1) Removed (teardown_io_queue s1) _
            (teardown_io_queue-IoGone I (A ++ (master ∷ [])) s1 gone.1 gone.0)
            (λ u' s2 (io_gone : IoGone I (A ++ (master ∷ [])) s1 (u', s2)).
              follow_lem (λ r. Holds r.1.log (master ∷ []) × (r.1.dev.io ≡ s2.dev.io)) Removed
                (teardown_admin_queue k s2) _
                (teardown_admin_queue-Gone k A (master ∷ []) s2 (io_gone.2 ∙ gone.3)
                  (ap (λ q. admin_owned q) io_gone.1 ∙ gone.2) io_gone.0)
                (λ u'' s3 (left : Holds s3.log (master ∷ []) × (s3.dev.io ≡ s2.dev.io)). (
                  given _ left.0,
                  subst (λ (q : DriverQueue). (start.dev.nr_queues ≡ 1) ⊎ AllIdle q.requests)
                      (sym (left.1 ∙ io_gone.3)) gone.4,
                )))))
