-- ===== src/Driver/IoBalance.antt =====
-- driver/openflash/openflash_queue.c, openflash_setup_io_queue: what is held after each way out.
use openflash_controller_lab.Base.{
  ℕ, zero, suc, ◌+◌, ◌-◌, ◌<◌, ◌≡◌, ◌∙◌, refl, ap, subst, arith, some, List, [], ◌∷◌, ◌++◌,
  append_assoc, u16, set, length, length-set, get_elem?-set_self, length-replicate, replicate, take,
  Succeeds,
}
use openflash_controller_lab.Base.Splice.{take-length}
use openflash_controller_lab.Base.Take.{take-suc, take-set_self}
use openflash_controller_lab.Driver.Errno
use openflash_controller_lab.Driver.State.{Request}
use openflash_controller_lab.Driver.Kernel.{Kernel, Resource, Call, dma, get_memory, acquire, Sys}
use openflash_controller_lab.Driver.Slots.{AllFit, set-AllFit}
use openflash_controller_lab.Driver.Holds.{Since, now, later, Holds, taken, given, lists}
use openflash_controller_lab.Driver.Balance.{goto_lem, alloc_lem, alloc_absent_lem}
use openflash_controller_lab.Driver.Setup.{started, sq_size, cq_size, list_size}
use openflash_controller_lab.Driver.IoSetup.{
  empty_slot, slot_with, free_io_sq, free_io_cq, io_list, io_lists, io_requests, io_cq, io_sq,
  setup_io_queue,
}
use openflash_controller_lab.Driver.Lists.{lists-append}
use openflash_controller_lab.Driver.IoUnwind.{
  IsBuilding, AdminStill, still, AllFit-empty, Built, free_io_cq-Built, free_sgl-Built, unset_suc,
  io_interrupt-Built,
}

module _ (k : Kernel) (d : ℕ) (pos : 0 < d) (small : d < u16) (A base : List Resource)
    (before : List Call) where
  io_lists-Built :
      (rounds tag : ℕ) (s : Sys)
      → IsBuilding d A s.dev
      → tag + rounds ≡ length s.dev.io.requests
      → length s.dev.io.requests + 1 ≡ d
      → AllFit s.dev.io.requests
      → Since before s.log
      → Holds s.log (
          lists (take tag s.dev.io.requests)
          ++ (dma (cq_size s.dev.io) s.dev.io.cq_dma
              ∷ dma (sq_size s.dev.io) s.dev.io.sq_dma
              ∷ (A ++ base)))
      → Succeeds (Built k d pos small A base before) (io_lists k rounds tag s)
  unfolding io_lists
  io_lists-Built zero tag s v past slots fits since h =
      let whole : take tag s.dev.io.requests ≡ s.dev.io.requests =
        ap (λ n. take n s.dev.io.requests) (omega (arith, past)) ∙ take-length s.dev.io.requests in
      (io_interrupt-Built k d pos small A base before) tag s
        (record { building = v; past = omega (arith, past); slots = slots; fits = fits })
        (subst
          (λ (rs : List Request). Holds s.log (
            lists rs
            ++ (dma (cq_size s.dev.io) s.dev.io.cq_dma
                ∷ dma (sq_size s.dev.io) s.dev.io.sq_dma
                ∷ (A ++ base))))
          whole h)
  io_lists-Built (suc rounds) tag s v past slots fits since h =
      let zs =
        dma (cq_size s.dev.io) s.dev.io.cq_dma
        ∷ dma (sq_size s.dev.io) s.dev.io.sq_dma
        ∷ (A ++ base) in
      let low : tag < length s.dev.io.requests = omega (arith, past) in
      alloc_absent_lem (Built k d pos small A base before) list_size (k.dma_alloc list_size s.log)
        (λ sgl. io_list k (io_lists k rounds (tag + 1)) tag sgl) s
        (λ absent.
          (free_sgl-Built k d pos small A base before) tag k.indeterminate s v
            (λ is_zero. record {
              unassigned = is_zero;
              at = s.log;
              during = since;
              absent = absent;
              until = now;
            })
            (omega (arith, past)) h)
        (λ handle.
          let slot = slot_with handle in
          let requests = set s.dev.io.requests tag slot in
          let next : tag + 1 ≡ suc tag = omega arith in
          let same = length-set s.dev.io.requests tag slot in
          let split : lists (take (tag + 1) requests) ++ zs
              ≡ lists (take tag s.dev.io.requests) ++ (dma list_size handle ∷ zs) =
            rw
              (
                next,
                take-suc requests tag (get_elem?-set_self s.dev.io.requests tag slot low),
                take-set_self s.dev.io.requests tag slot,
                lists-append (take tag s.dev.io.requests) (slot ∷ []),
              )
              (append_assoc (lists (take tag s.dev.io.requests)) (dma list_size handle ∷ []) zs) in
          io_lists-Built rounds (tag + 1)
            (record {
              dev = record s.dev { io = record s.dev.io { requests = requests } };
              log = acquire (dma list_size handle) ∷ s.log;
            })
            (record {
              idle = v.idle;
              has = v.has;
              no_disk = v.no_disk;
              one_queue = v.one_queue;
              depth_lem = v.depth_lem;
              head = v.head;
            })
            (omega (arith, past, same)) (omega (arith, slots, same))
            (set-AllFit s.dev.io.requests tag slot fits (omega arith)) (later _ since)
            (Holds.take (dma list_size handle) (lists (take tag s.dev.io.requests)) zs h refl
              split))

  io_requests-Built :
      (s : Sys)
      → IsBuilding d A s.dev
      → Since before s.log
      → Holds s.log (
          dma (cq_size s.dev.io) s.dev.io.cq_dma
          ∷ dma (sq_size s.dev.io) s.dev.io.sq_dma
          ∷ (A ++ base))
      → Succeeds (Built k d pos small A base before) (io_requests k s)
  unfolding io_requests
  io_requests-Built s v since h =
      let slots = replicate (s.dev.io.depth - 1) empty_slot in
      let many : length slots ≡ s.dev.io.depth - 1 =
        length-replicate (s.dev.io.depth - 1) empty_slot in
      goto_lem (Built k d pos small A base before) (λ e. free_io_cq Errno.enomem)
        (k.answer get_memory s.log) _ s
        (λ e.
          (free_io_cq-Built k d pos small A base before) Errno.enomem s v
            ((unset_suc k d pos small A base before) 11) h)
        (io_lists-Built (s.dev.io.depth - 1) 0
          (record s { dev = record s.dev { io = record s.dev.io { requests = slots } } })
          (record {
            idle = v.idle;
            has = v.has;
            no_disk = v.no_disk;
            one_queue = v.one_queue;
            depth_lem = v.depth_lem;
            head = v.head;
          })
          (omega (arith, many)) (omega (arith, many, v.depth_lem))
          (AllFit-empty (s.dev.io.depth - 1)) since h)

  io_sq-Built :
      (s : Sys) (handle : ℕ)
      → IsBuilding d A s.dev
      → Since before s.log
      → Holds s.log (dma (sq_size s.dev.io) handle ∷ (A ++ base))
      → Succeeds (Built k d pos small A base before) (io_sq k (some handle) s)
  unfolding io_sq io_cq free_io_sq
  io_sq-Built s handle v since h =
      let s' : Sys = record s { dev = record s.dev { io = record s.dev.io { sq_dma = handle } } } in
      alloc_lem (Built k d pos small A base before) (cq_size s.dev.io)
        (k.dma_alloc (cq_size s.dev.io) s.log) (io_cq k) s'
        (still _
          (record {
            idle = v.idle;
            has = v.has;
            no_disk = v.no_disk;
            one_queue = v.one_queue;
            depth_lem = v.depth_lem;
            head = v.head;
          })
          (given _ h))
        (λ handle'.
          io_requests-Built
            (record {
              dev = record s'.dev { io = record s'.dev.io { cq_dma = handle' } };
              log = acquire (dma (cq_size s.dev.io) handle') ∷ s.log;
            })
            (record {
              idle = v.idle;
              has = v.has;
              no_disk = v.no_disk;
              one_queue = v.one_queue;
              depth_lem = v.depth_lem;
              head = v.head;
            })
            (later _ since) (taken _ h))

module _ (k : Kernel) (d : ℕ) (pos : 0 < d) (small : d < u16) (A base : List Resource) where
  -- With the admin queue up, no disk, a depth of 1 to 65535 and a head of 0,
  -- `openflash_setup_io_queue` returns, whatever fails, and makes no access outside the slots.
  -- With 0 it holds the rings, the slots' lists and the interrupt of vector 1 on top of what was
  -- held before, in a valid queue with a slot for each tag; with an error nothing more than
  -- before. Only where a list's allocation fails and the variable that nothing was assigned to
  -- holds 0 can it return 0 and hold nothing more.
  pub setup_io_queue-Built :
      (s : Sys)
      → AdminStill A base s
      → s.dev.queue_depth ≡ d
      → s.dev.io.cq_head ≡ 0
      → Succeeds (Built k d pos small A base s.log) (setup_io_queue k s)
  unfolding setup_io_queue io_sq
  setup_io_queue-Built s a depth head =
      let queue = started 1 s.dev.queue_depth s.dev.io in
      let s' : Sys = record s { dev = record s.dev { io = queue } } in
      alloc_lem (Built k d pos small A base s.log) (sq_size queue)
        (k.dma_alloc (sq_size queue) s.log) (io_sq k) s'
        (record {
          idle = a.idle;
          has = a.has;
          no_disk = a.no_disk;
          one_queue = a.one_queue;
          held = a.held;
        })
        (λ handle.
          io_sq-Built k d pos small A base s.log
            (record s' { log = acquire (dma (sq_size queue) handle) ∷ s.log }) handle
            (record {
              idle = a.idle;
              has = a.has;
              no_disk = a.no_disk;
              one_queue = a.one_queue;
              depth_lem = depth;
              head = head;
            })
            (later _ now) (taken _ a.held))
