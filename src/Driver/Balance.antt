-- ===== src/Driver/Balance.antt =====
-- driver/openflash/openflash_queue.c, openflash_setup_admin_queue: what is held after each way out.
use openflash_controller_lab.Base.{
  ℕ, zero, suc, ◌/◌, ◌%◌, ◌<◌, ◌≡◌, refl, true, arith, Option, none, some, List, ◌∷◌, ◌++◌, u16,
  u32, Outcome, ok, err, Succeeds,
}
use openflash_controller_lab.Abi.Reg
use openflash_controller_lab.Driver.Errno
use openflash_controller_lab.Driver.State.{write_register, wait_ready}
use openflash_controller_lab.Driver.Kernel.{
  Kernel, Resource, dma, irq, vectors, get_memory, get, ready, acquire, did, Dev, Sys, Action,
  follow, acquired, allocated,
}
use openflash_controller_lab.Driver.Waits.{IsIdle}
use openflash_controller_lab.Driver.Holds.{Holds, taken, given, other, admin_owned}
use openflash_controller_lab.Driver.Setup.{
  goto, zeroed, started, sq_size, cq_size, free_admin_cq, free_vectors, disable, enable_controller,
  admin_irq, admin_vectors, admin_cq, admin_sq, setup_admin_queue,
}

-- What holds after an error, and after 0.
abbrev pub OnReturn : (Sys → Type 0) → (Sys → Type 0) → ℕ × Sys → Type 0
OnReturn after_error after_success (zero, s) = after_success s
OnReturn after_error after_success (suc e, s) = after_error s

-- What follows an action that succeeds.
pub follow_lem :
    {A B : Type 0} (P : A × Sys → Type 0) (Q : B × Sys → Type 0) (m : Outcome (A × Sys))
    (f : A → Action B)
    → Succeeds P m
    → ((a : A) (s : Sys) → P (a, s) → Succeeds Q (f a s))
    → Succeeds Q (follow f m)
follow_lem P Q (ok (a, s)) f h next = next a s h
follow_lem P Q (err e) f h next = h

-- A call that can fail is followed on both ways.
pub goto_lem :
    (Q : ℕ × Sys → Type 0) (label : ℕ → Action ℕ) (n : ℕ) (next : Action ℕ) (s : Sys)
    → ((e : ℕ) → Succeeds Q (label (suc e) s))
    → Succeeds Q (next s)
    → Succeeds Q (goto label n next s)
goto_lem Q label zero next s failure success = success
goto_lem Q label (suc e) next s failure success = failure e

pub obtain_lem :
    (Q : ℕ × Sys → Type 0) (r : Resource) (n : ℕ) (label : ℕ → Action ℕ) (next : Action ℕ) (s : Sys)
    → ((e : ℕ) → Succeeds Q (label (suc e) s))
    → Succeeds Q (next (record s { log = acquire r ∷ s.log }))
    → Succeeds Q (follow (λ ret. goto label ret next) (acquired r n s))
obtain_lem Q r zero label next s failure success = success
obtain_lem Q r (suc e) label next s failure success = failure e

-- What follows a failed allocation knows that it failed.
pub alloc_absent_lem :
    (Q : ℕ × Sys → Type 0) (size : ℕ) (o : Option ℕ) (next : Option ℕ → Action ℕ) (s : Sys)
    → (o ≡ none → Succeeds Q (next none s))
    → ((handle : ℕ)
        → Succeeds Q (next (some handle) (record s { log = acquire (dma size handle) ∷ s.log })))
    → Succeeds Q (follow next (allocated size o s))
alloc_absent_lem Q size none next s failure success = failure refl
alloc_absent_lem Q size (some handle) next s failure success = success handle

pub alloc_lem :
    (Q : ℕ × Sys → Type 0) (size : ℕ) (o : Option ℕ) (next : Option ℕ → Action ℕ) (s : Sys)
    → Succeeds Q (next none s)
    → ((handle : ℕ)
        → Succeeds Q (next (some handle) (record s { log = acquire (dma size handle) ∷ s.log })))
    → Succeeds Q (follow next (allocated size o s))
alloc_lem Q size o next s failure success =
    alloc_absent_lem Q size o next s (λ absent. failure) success

-- The device while its admin queue is set up, and once it is.
pub record IsStarting (d : ℕ) (dev : Dev) : Type 0 where
  pub has : dev.has_queues ≡ true
  pub depth_lem : dev.queue_depth ≡ d
  pub admin_depth : dev.admin.depth ≡ d
  pub admin_head : dev.admin.cq_head ≡ 0
  pub io_zeroed : dev.io ≡ zeroed
  pub no_disk : dev.gendisk ≡ none

pub record AdminUp (d : ℕ) (base : List Resource) (s : Sys) : Type 0 where
  pub idle : IsIdle (admin_owned s.dev.admin) s.dev.admin
  pub has : s.dev.has_queues ≡ true
  pub depth_lem : s.dev.queue_depth ≡ d
  pub io_zeroed : s.dev.io ≡ zeroed
  pub no_disk : s.dev.gendisk ≡ none
  pub one_queue : s.dev.nr_queues ≡ 1
  pub held : Holds s.log (admin_owned s.dev.admin ++ base)

module _ (k : Kernel) (d : ℕ) (pos : 0 < d) (small : d < u16) (base : List Resource) where
  abbrev Ends : ℕ × Sys → Type 0
  Ends = OnReturn (λ s. Holds s.log base) (AdminUp d base)

  enable_controller-Ends :
      (s : Sys)
      → IsStarting d s.dev
      → Holds s.log (admin_owned s.dev.admin ++ base)
      → Succeeds Ends (enable_controller k s)
  unfolding enable_controller
  enable_controller-Ends s v h =
      let q = s.dev.admin in
      let log =
        did wait_ready
        ∷ did (write_register Reg.control 1)
        ∷ did (write_register Reg.admin_qsize q.depth)
        ∷ did (write_register Reg.admin_cq_hi ((q.cq_dma / u32) % u32))
        ∷ did (write_register Reg.admin_cq_lo (q.cq_dma % u32))
        ∷ did (write_register Reg.admin_sq_hi ((q.sq_dma / u32) % u32))
        ∷ did (write_register Reg.admin_sq_lo (q.sq_dma % u32))
        ∷ s.log in
      let held : Holds log (admin_owned q ++ base) =
        other _ (other _ (other _ (other _ (other _ (other _ (other _ h)))))) in
      let s' : Sys = record { dev = record s.dev { nr_queues = 1 }; log = log } in
      goto_lem Ends disable (k.answer ready log) (λ s''. ok (0, s'')) s'
        (λ e. given _ (given _ (given _ (given _ (other _ held)))))
        (record {
          idle = record {
            below = omega (arith, v.admin_head, v.admin_depth);
            small = omega (arith, v.admin_depth);
            owns = refl;
          };
          has = v.has;
          depth_lem = v.depth_lem;
          io_zeroed = v.io_zeroed;
          no_disk = v.no_disk;
          one_queue = refl;
          held = held;
        })

  admin_irq-Ends :
      (s : Sys)
      → IsStarting d s.dev
      → Holds s.log (
          vectors
          ∷ dma (cq_size s.dev.admin) s.dev.admin.cq_dma
          ∷ dma (sq_size s.dev.admin) s.dev.admin.sq_dma
          ∷ base)
      → Succeeds Ends (admin_irq k s)
  unfolding admin_irq
  admin_irq-Ends s v h =
      obtain_lem Ends (irq 0) (k.answer (get (irq 0)) s.log) free_vectors (enable_controller k) s
        (λ e. given _ (given _ (given _ h)))
        (enable_controller-Ends (record s { log = acquire (irq 0) ∷ s.log }) v (taken _ h))

  admin_vectors-Ends :
      (s : Sys)
      → IsStarting d s.dev
      → Holds s.log (
          dma (cq_size s.dev.admin) s.dev.admin.cq_dma
          ∷ dma (sq_size s.dev.admin) s.dev.admin.sq_dma
          ∷ base)
      → Succeeds Ends (admin_vectors k s)
  unfolding admin_vectors
  admin_vectors-Ends s v h =
      obtain_lem Ends vectors (k.answer (get vectors) s.log) free_admin_cq (admin_irq k) s
        (λ e. given _ (given _ h))
        (admin_irq-Ends (record s { log = acquire vectors ∷ s.log }) v (taken _ h))

  admin_sq-Ends :
      (s : Sys) (handle : ℕ)
      → IsStarting d s.dev
      → Holds s.log (dma (sq_size s.dev.admin) handle ∷ base)
      → Succeeds Ends (admin_sq k (some handle) s)
  unfolding admin_sq admin_cq
  admin_sq-Ends s handle v h =
      let s' : Sys = record s {
        dev = record s.dev { admin = record s.dev.admin { sq_dma = handle } };
      } in
      let v' : IsStarting d s'.dev = record {
        has = v.has;
        depth_lem = v.depth_lem;
        admin_depth = v.admin_depth;
        admin_head = v.admin_head;
        io_zeroed = v.io_zeroed;
        no_disk = v.no_disk;
      } in
      alloc_lem Ends (cq_size s.dev.admin) (k.dma_alloc (cq_size s.dev.admin) s.log) (admin_cq k) s'
        (given _ h)
        (λ handle'.
          admin_vectors-Ends
            (record {
              dev = record s'.dev { admin = record s'.dev.admin { cq_dma = handle' } };
              log = acquire (dma (cq_size s.dev.admin) handle') ∷ s.log;
            })
            (record {
              has = v.has;
              depth_lem = v.depth_lem;
              admin_depth = v.admin_depth;
              admin_head = v.admin_head;
              io_zeroed = v.io_zeroed;
              no_disk = v.no_disk;
            })
            (taken _ h))

  -- Whatever fails, `openflash_setup_admin_queue` returns: with 0 it holds the two rings, the vectors
  -- and the interrupt of vector 0 on top of what was held, with an error nothing more than was.
  pub setup_admin_queue-Ends :
      (s : Sys)
      → s.dev.queue_depth ≡ d
      → s.dev.gendisk ≡ none
      → Holds s.log base
      → Succeeds Ends (setup_admin_queue k s)
  unfolding setup_admin_queue admin_sq
  setup_admin_queue-Ends s depth no_disk h =
      let queue = started 0 s.dev.queue_depth zeroed in
      let s' : Sys = record s {
        dev = record s.dev { has_queues = true; admin = queue; io = zeroed };
      } in
      goto_lem Ends (λ e s''. ok (Errno.enomem, s'')) (k.answer get_memory s.log) _ s (λ e. h)
        (alloc_lem Ends (sq_size queue) (k.dma_alloc (sq_size queue) s.log) (admin_sq k) s' h
          (λ handle.
            admin_sq-Ends (record s' { log = acquire (dma (sq_size queue) handle) ∷ s.log }) handle
              (record {
                has = refl;
                depth_lem = depth;
                admin_depth = depth;
                admin_head = refl;
                io_zeroed = refl;
                no_disk = no_disk;
              })
              (taken _ h)))
