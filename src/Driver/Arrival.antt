-- ===== src/Driver/Arrival.antt =====
-- driver/openflash/openflash_core.c, openflash_register_block_device and openflash_probe: what is held
-- after each way out.
use openflash_controller_lab.Base.{
  ℕ, zero, suc, ◌<◌, ◌≡◌, ◌∙◌, refl, ap, inl, inr, true, Bool-cases, arith, none, some, List, [],
  ◌∷◌, ◌++◌, ◌==◌, u16, u64, ◌%◌, Succeeds, Succeeds-weaken,
}
use openflash_controller_lab.Abi.Reg
use openflash_controller_lab.Abi.Opcode
use openflash_controller_lab.Driver.Errno
use openflash_controller_lab.Driver.State.{DriverQueue, read_register}
use openflash_controller_lab.Driver.Kernel.{
  Kernel, Resource, master, tag_set, disk, disk_added, get, read, get_memory, enable_device,
  set_dma_mask, map_regions, acquire, did, Dev, Sys, pure,
}
use openflash_controller_lab.Driver.Admin.{empty_command, admin_identify, advance_cid}
use openflash_controller_lab.Driver.Waits.{IsIdle, wait_log}
use openflash_controller_lab.Driver.Holds.{Holds, taken, given, other, admin_owned, io_owned}
use openflash_controller_lab.Driver.Identify.{Identified, admin_identify-Identified}
use openflash_controller_lab.Driver.Balance.{
  OnReturn, follow_lem, goto_lem, obtain_lem, AdminUp, setup_admin_queue-Ends,
}
use openflash_controller_lab.Driver.IoUnwind.{AdminStill, Built}
use openflash_controller_lab.Driver.IoBalance.{setup_io_queue-Built}
use openflash_controller_lab.Driver.Teardown.{
  IoState, IoGone, IsAlive, teardown_io_queue-IoGone, undo_admin-Gone,
}
use openflash_controller_lab.Driver.Setup.{goto, setup_admin_queue}
use openflash_controller_lab.Driver.IoSetup.{teardown_io_queue, setup_io_queue}
use openflash_controller_lab.Driver.Probe.{
  described, free_tag_set, put_disk, add_disk, register_block_device, clear_master, undo_admin,
  undo_io, probe_disk, probe_io, probe_identify, probe_queues, probe_device, probe, new_dev,
  default_depth, supported_abi,
}

-- What a probe ends with.
abbrev pub Probed : ℕ × Sys → Type 0
Probed =
    OnReturn (λ s. Holds s.log []) (λ s. (A : List Resource) × (I : List Resource) × IsAlive A I s)

on_error : (e : ℕ) (r : ℕ × Sys) → (r.0 ≡ suc e) × Holds r.1.log [] → Probed r
on_error e (zero, s) (same, h) = absurd (omega arith)
on_error e (suc n, s) (same, h) = h

module _ (k : Kernel) where
  undo_admin-Probed :
      (A : List Resource) (e : ℕ) (s : Sys)
      → s.dev.has_queues ≡ true
      → admin_owned s.dev.admin ≡ A
      → Holds s.log (A ++ (master ∷ []))
      → Succeeds Probed (undo_admin k (suc e) s)
  undo_admin-Probed A e s has owns h =
      Succeeds-weaken (λ r. (r.0 ≡ suc e) × Holds r.1.log []) Probed (undo_admin k (suc e) s)
        (undo_admin-Gone k A (master ∷ []) (suc e) s has owns refl h) (on_error e)

  undo_io-Probed :
      (A I : List Resource) (e : ℕ) (s : Sys)
      → IoState I s.dev
      → s.dev.has_queues ≡ true
      → admin_owned s.dev.admin ≡ A
      → Holds s.log (I ++ (A ++ (master ∷ [])))
      → Succeeds Probed (undo_io k (suc e) s)
  unfolding undo_io
  undo_io-Probed A I e s io has owns h =
      follow_lem (IoGone I (A ++ (master ∷ [])) s) Probed (teardown_io_queue s) _
        (teardown_io_queue-IoGone I (A ++ (master ∷ [])) s io h)
        (λ u s' (gone : IoGone I (A ++ (master ∷ [])) s (u, s')).
          undo_admin-Probed A e s' (gone.2 ∙ has) (ap (λ q. admin_owned q) gone.1 ∙ owns) gone.0)

  -- After `openflash_register_block_device`: the disk's resources on top of the others, or nothing more.
  abbrev Registered : List Resource → List Resource → ℕ × Sys → Type 0
  Registered A I =
      OnReturn
        (λ s.
          IoState I s.dev
          × (s.dev.has_queues ≡ true)
          × (admin_owned s.dev.admin ≡ A)
          × Holds s.log (I ++ (A ++ (master ∷ []))))
        (IsAlive A I)

  register_block_device-Registered :
      (A I : List Resource) (s : Sys)
      → IsIdle A s.dev.admin
      → IoState I s.dev
      → s.dev.has_queues ≡ true
      → Holds s.log (I ++ (A ++ (master ∷ [])))
      → Succeeds (Registered A I) (register_block_device k s)
  unfolding register_block_device add_disk put_disk free_tag_set
  register_block_device-Registered A I s idle io has h =
      let Q = Registered A I in
      let s1 : Sys = record s { log = acquire tag_set ∷ s.log } in
      let s2 : Sys = record s { log = acquire disk ∷ acquire tag_set ∷ s.log } in
      let s3 : Sys = record s2 { dev = record s.dev { gendisk = some (described s.dev) } } in
      obtain_lem Q tag_set (k.answer (get tag_set) s.log) pure _ s (λ e. (io, has, idle.owns, h))
        (obtain_lem Q disk (k.answer (get disk) s1.log) free_tag_set (add_disk k) s1
          (λ e. (io, has, idle.owns, given _ (taken _ h)))
          (obtain_lem Q disk_added (k.answer (get disk_added) s2.log) put_disk (pure 0) s3
            (λ e. (io, has, idle.owns, given _ (given _ (taken _ (taken _ h)))))
            (record {
              idle = idle;
              has = has;
              gendisk = described s.dev;
              present = refl;
              io = io;
              held = taken _ (taken _ (taken _ h));
            })))

  probe_disk-Probed :
      (A I : List Resource) (s : Sys)
      → IsIdle A s.dev.admin
      → IoState I s.dev
      → s.dev.has_queues ≡ true
      → Holds s.log (I ++ (A ++ (master ∷ [])))
      → Succeeds Probed (probe_disk k s)
  unfolding probe_disk
  probe_disk-Probed A I s idle io has h =
      follow_lem (Registered A I) Probed (register_block_device k s) _
        (register_block_device-Registered A I s idle io has h) (λ ret s' r. after ret s' r)
    where
      after :
          (ret : ℕ) (s' : Sys)
          → Registered A I (ret, s')
          → Succeeds Probed (goto (undo_io k) ret (pure 0) s')
      after zero s' alive = (A, I, alive)
      after (suc e) s' (io', has', owns', h') = undo_io-Probed A I e s' io' has' owns' h'

  probe_io-Probed :
      (d : ℕ) (A : List Resource) (s : Sys)
      → 0 < d
      → d < u16
      → AdminStill A (master ∷ []) s
      → s.dev.queue_depth ≡ d
      → s.dev.io.cq_head ≡ 0
      → Succeeds Probed (probe_io k s)
  unfolding probe_io
  probe_io-Probed d A s pos small a depth head =
      follow_lem (Built k d pos small A (master ∷ []) s.log) Probed (setup_io_queue k s) _
        (setup_io_queue-Built k d pos small A (master ∷ []) s a depth head)
        (λ ret s' r. after ret s' r)
    where
      after :
          (ret : ℕ) (s' : Sys)
          → Built k d pos small A (master ∷ []) s.log (ret, s')
          → Succeeds Probed (goto (undo_admin k) ret (probe_disk k) s')
      after zero s' (inl b) =
          probe_disk-Probed A (io_owned s'.dev.io) s' b.idle (inl (b.two_queues, b.safe)) b.has
            b.held
      after zero s' (inr (unset, b)) =
          probe_disk-Probed A [] s' b.idle (inr (b.one_queue, refl)) b.has b.held
      after (suc e) s' b = undo_admin-Probed A e s' b.has b.idle.owns b.held

  probe_identify-Probed :
      (d : ℕ) (s : Sys)
      → 0 < d
      → d < u16
      → AdminUp d (master ∷ []) s
      → Succeeds Probed (probe_identify k s)
  unfolding probe_identify
  probe_identify-Probed d s pos small up =
      follow_lem Known Probed (admin_identify k s) _ (admin_identify-Identified k A s up.idle)
        (λ ret s' (i : Known (ret, s')).
          let has = ap (λ (dev : Dev). dev.has_queues) i.others ∙ up.has in
          goto_lem Probed (undo_admin k) ret (probe_io k) s'
            (λ e. undo_admin-Probed A e s' has i.idle.owns (i.held _ up.held))
            (probe_io-Probed d A s' pos small
              (record {
                idle = i.idle;
                has = has;
                no_disk = ap (λ (dev : Dev). dev.gendisk) i.others ∙ up.no_disk;
                one_queue = ap (λ (dev : Dev). dev.nr_queues) i.others ∙ up.one_queue;
                held = i.held _ up.held;
              })
              (ap (λ (dev : Dev). dev.queue_depth) i.others ∙ up.depth_lem)
              (ap (λ (dev : Dev). dev.io.cq_head) i.others
                ∙ ap (λ (q : DriverQueue). q.cq_head) up.io_zeroed)))
    where
      A : List Resource
      A = admin_owned s.dev.admin

      Known : ℕ × Sys → Type 0
      Known =
          Identified A (k.interrupts (wait_log s (empty_command Opcode.identify)))
            (advance_cid s.dev.admin.next_cid) s

  probe_queues-Probed :
      (d : ℕ) (s : Sys)
      → 0 < d
      → d < u16
      → s.dev.queue_depth ≡ d
      → s.dev.gendisk ≡ none
      → Holds s.log []
      → Succeeds Probed (probe_queues k s)
  unfolding probe_queues clear_master
  probe_queues-Probed d s pos small depth no_disk h =
      let s1 : Sys = record s { log = acquire master ∷ s.log } in
      follow_lem (OnReturn (λ s'. Holds s'.log (master ∷ [])) (AdminUp d (master ∷ []))) Probed
        (setup_admin_queue k s1) _
        (setup_admin_queue-Ends k d pos small (master ∷ []) s1 depth no_disk (taken _ h))
        (λ ret s' r. after ret s' r)
    where
      after :
          (ret : ℕ) (s' : Sys)
          → OnReturn (λ s''. Holds s''.log (master ∷ [])) (AdminUp d (master ∷ [])) (ret, s')
          → Succeeds Probed (goto (clear_master k) ret (probe_identify k) s')
      after zero s' up = probe_identify-Probed d s' pos small up
      after (suc e) s' left = given _ left

  -- Where nothing is held, `openflash_probe` returns, whatever the kernel and the controller
  -- answer. With an error everything that was taken has been given back, each once: memory,
  -- interrupts, vectors, the disk, its tag set and bus mastering. With 0 the device is alive: its
  -- admin queue set up, its disk present, and its I/O queue valid or not up, and exactly their
  -- resources are held.
  pub probe-Probed : (s : Sys) → Holds s.log [] → Succeeds Probed (probe k s)
  unfolding probe probe_device
  probe-Probed s h =
      goto_lem Probed pure (k.answer enable_device s.log) _ s (λ e. h)
        (goto_lem Probed pure (k.answer set_dma_mask s.log) _ s (λ e. h)
          (goto_lem Probed pure (k.answer map_regions s.log) _ s (λ e. h)
            (goto_lem Probed (λ e. pure Errno.enomem) (k.answer get_memory s.log) _ s (λ e. h)
              (elim (Bool-cases (version == supported_abi)) [
                | inl known ↦ rw known (
                    probe_queues-Probed default_depth found (omega arith) (omega arith) refl refl
                      (other _ (other _ h)))
                | inr unknown ↦ rw unknown (other _ (other _ h))
              ]))))
    where
      version : ℕ
      version = k.answer (read Reg.abi_version) (did (read_register Reg.capabilities) ∷ s.log)

      found : Sys
      found = record {
        dev = new_dev (k.answer (read Reg.capabilities) s.log % u64);
        log = did (read_register Reg.abi_version) ∷ did (read_register Reg.capabilities) ∷ s.log;
      }
