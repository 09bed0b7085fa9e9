-- ===== src/Driver/Dangling.antt =====
-- driver/openflash/openflash_core.c, openflash_reset_work, where the set-up of the I/O queue came back with
-- 0 and its rings given back.
use openflash_controller_lab.Base.{◌≡◌, refl, true, arith, ltb, ok, err, out_of_bounds}
use openflash_controller_lab.Driver.State.{BlkStatus, sts_timeout}
use openflash_controller_lab.Driver.Completion.{fail_io_requests}
use openflash_controller_lab.Driver.Kernel.{Kernel, Sys}
use openflash_controller_lab.Driver.Recovery.{fail_requests, reset_controller, restart}

module _ (k : Kernel) where
  reset_controller-freed :
      (s : Sys) → s.dev.nr_queues ≡ 1 → reset_controller k s ≡ err out_of_bounds
  unfolding reset_controller
  reset_controller-freed s one =
      let down : ltb s.dev.nr_queues 2 ≡ true = ground (arith, one) in rw down refl

  fail_requests-freed :
      (status : BlkStatus) (s : Sys) → s.dev.nr_queues ≡ 1 → fail_requests status s ≡ ok (tt, s)
  unfolding fail_requests fail_io_requests
  fail_requests-freed status s one =
      let down : ltb s.dev.nr_queues 2 ≡ true = ground (arith, one) in rw down refl

  pub restart-freed : (s : Sys) → s.dev.nr_queues ≡ 1 → restart k s ≡ err out_of_bounds
  unfolding restart
  restart-freed s one =
      rw (fail_requests-freed sts_timeout s one, reset_controller-freed s one) refl
