-- ===== src/Driver/IoSetup.antt =====
-- driver/openflash/openflash_queue.c: the rings, the lists and the interrupt of the I/O queue, taken and
-- given back (openflash_setup_io_queue, openflash_teardown_io_queue).
use openflash_controller_lab.Base.{
  ℕ, zero, suc, ◌+◌, ◌-◌, Option, none, some, [], if◌then◌else◌, ltb, get_elem?, set, replicate,
  err, out_of_bounds,
}
use openflash_controller_lab.Abi.Struct.{max_sgl_entries}
use openflash_controller_lab.Driver.Errno
use openflash_controller_lab.Driver.State.{Request, bidirectional}
use openflash_controller_lab.Driver.Kernel.{
  Kernel, dma, irq, get_memory, Action, ◌>>=◌, ◌>>◌, pure, get_dev, modify, free, ask, obtain,
  alloc,
}
use openflash_controller_lab.Driver.Admin.{create_io_queue}
use openflash_controller_lab.Driver.Setup.{goto, started, sq_size, cq_size, list_size, set_io}

-- A slot in memory from `devm_kcalloc`, and with its list.
abbrev pub empty_slot : Request
empty_slot = record { rq = none; sgl = []; sgl_dma = 0; nr_mapped = 0; dma_dir = bidirectional }

abbrev pub slot_with : ℕ → Request
slot_with handle = record empty_slot {
  sgl = replicate max_sgl_entries (record { addr = 0; length = 0; reserved = 0 });
  sgl_dma = handle;
}

-- `dma_free_coherent` of a slot's list.
abbrev pub free_found : Option Request → Action (Unit {0})
free_found none s = err out_of_bounds
free_found (some request) s = free (dma list_size request.sgl_dma) s

abbrev pub free_list : ℕ → Action (Unit {0})
free_list tag s = free_found (get_elem? s.dev.io.requests tag) s

-- `while (tag--)`, and the loop of `openflash_teardown_io_queue` by its rounds.
unfoldable pub free_lists_down : ℕ → Action (Unit {0})
free_lists_down zero = pure tt
free_lists_down (suc tag) = do free_list tag; free_lists_down tag

unfoldable pub free_lists_up : ℕ → ℕ → Action (Unit {0})
free_lists_up zero tag = pure tt
free_lists_up (suc rounds) tag = do free_list tag; free_lists_up rounds (tag + 1)

-- The labels of `openflash_setup_io_queue`, the last one first.
unfoldable pub free_io_sq : ℕ → Action ℕ
free_io_sq ret = do dev ← get_dev; free (dma (sq_size dev.io) dev.io.sq_dma); pure ret

unfoldable pub free_io_cq : ℕ → Action ℕ
unfolding free_io_sq
free_io_cq ret = do dev ← get_dev; free (dma (cq_size dev.io) dev.io.cq_dma); free_io_sq ret

unfoldable pub free_sgl : ℕ → ℕ → Action ℕ
unfolding free_io_cq
free_sgl tag ret = do free_lists_down tag; free_io_cq ret

unfoldable pub free_io_irq : ℕ → ℕ → Action ℕ
unfolding free_sgl
free_io_irq tag ret = do free (irq 1); free_sgl tag ret

module _ (k : Kernel) where
  -- Its steps, from the last one on.
  unfoldable pub io_create : ℕ → Action ℕ
  unfolding create_io_queue free_io_irq
  io_create tag = do
    ret ← create_io_queue k
    goto (free_io_irq tag) ret (do modify (λ dev. record dev { nr_queues = 2 }); pure 0)

  unfoldable pub io_interrupt : ℕ → Action ℕ
  unfolding io_create free_sgl
  io_interrupt tag = do ret ← obtain k (irq 1); goto (free_sgl tag) ret (io_create tag)

  -- A failed allocation of a list leaves `ret` as it was, and nothing was assigned to it.
  unfoldable pub io_list : Action ℕ → ℕ → Option ℕ → Action ℕ
  unfolding free_sgl
  io_list rest tag none = free_sgl tag k.indeterminate
  io_list rest tag (some handle) = do
    set_io (λ q. record q { requests = set q.requests tag (slot_with handle) })
    rest

  -- The loop over the slots, by the rounds that are left.
  unfoldable pub io_lists : ℕ → ℕ → Action ℕ
  unfolding io_list io_interrupt
  io_lists zero tag = io_interrupt tag
  io_lists (suc rounds) tag = do
    sgl ← alloc k list_size
    io_list (io_lists rounds (tag + 1)) tag sgl

  unfoldable pub io_requests : Action ℕ
  unfolding io_lists free_io_cq
  io_requests = do
    missing ← ask k get_memory
    goto (λ e. free_io_cq Errno.enomem) missing
        (do
          set_io (λ q. record q { requests = replicate (q.depth - 1) empty_slot })
          dev ← get_dev
          io_lists (dev.io.depth - 1) 0)

  unfoldable pub io_cq : Option ℕ → Action ℕ
  unfolding io_requests free_io_sq
  io_cq none = free_io_sq Errno.enomem
  io_cq (some handle) = do set_io (λ q. record q { cq_dma = handle }); io_requests

  unfoldable pub io_sq : Option ℕ → Action ℕ
  unfolding io_cq
  io_sq none = pure Errno.enomem
  io_sq (some handle) = do
    set_io (λ q. record q { sq_dma = handle })
    dev ← get_dev
    cqes ← alloc k (cq_size dev.io)
    io_cq cqes

  unfoldable pub setup_io_queue : Action ℕ
  unfolding io_sq
  setup_io_queue = do
    modify (λ dev. record dev { io = started 1 dev.queue_depth dev.io })
    dev ← get_dev
    sq_cmds ← alloc k (sq_size dev.io)
    io_sq sq_cmds

-- `openflash_teardown_io_queue` after its guard.
unfoldable pub release_io_queue : Action (Unit {0})
unfolding free_lists_up
release_io_queue = do
  free (irq 1)
  dev ← get_dev
  free_lists_up (dev.io.depth - 1) 0
  free (dma (cq_size dev.io) dev.io.cq_dma)
  free (dma (sq_size dev.io) dev.io.sq_dma)
  modify (λ d. record d { nr_queues = 1 })

unfoldable pub teardown_io_queue : Action (Unit {0})
unfolding release_io_queue
teardown_io_queue = do dev ← get_dev; if ltb dev.nr_queues 2 then pure tt else release_io_queue
