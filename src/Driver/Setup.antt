-- ===== src/Driver/Setup.antt =====
-- driver/openflash/openflash_queue.c: the rings, the vectors and the interrupt of the admin queue, taken
-- and given back (openflash_setup_admin_queue, openflash_teardown_admin_queue). A label of the C code is
-- a function here, and goes on with the label below it.
use openflash_controller_lab.Base.{
  ℕ, zero, suc, ◌*◌, ◌/◌, ◌%◌, true, false, Option, none, some, [], if◌then◌else◌, u32,
}
use openflash_controller_lab.Abi.Reg
use openflash_controller_lab.Abi.Struct.{
  command_size, completion_size, sgl_desc_size, max_sgl_entries,
}
use openflash_controller_lab.Driver.Errno
use openflash_controller_lab.Driver.State.{DriverQueue, wait_ready}
use openflash_controller_lab.Driver.Kernel.{
  Kernel, dma, irq, vectors, get_memory, ready, did, Action, ◌>>=◌, ◌>>◌, pure, get_dev, modify,
  note, write_to, free, ask, read_from, obtain, alloc,
}

-- `if (ret) goto label;`
abbrev pub goto : (ℕ → Action ℕ) → ℕ → Action ℕ → Action ℕ
goto label zero next = next
goto label (suc e) next = label (suc e)

-- A queue in memory from `devm_kcalloc`, and with its first three assignments.
abbrev pub zeroed : DriverQueue
zeroed = record {
  qid = 0;
  depth = 0;
  sq_tail = 0;
  cq_head = 0;
  cq_phase = 0;
  sq_dma = 0;
  cq_dma = 0;
  next_cid = 0;
  requests = [];
  admin_cid = 0;
  admin_status = 0;
  admin_result = 0;
  admin_error = false;
  admin_pending = false;
  admin_done = false;
}

abbrev pub started : ℕ → ℕ → DriverQueue → DriverQueue
started qid depth q = record q { qid = qid; depth = depth; cq_phase = 1 }

abbrev pub sq_size : DriverQueue → ℕ
sq_size q = q.depth * command_size

abbrev pub cq_size : DriverQueue → ℕ
cq_size q = q.depth * completion_size

abbrev pub list_size : ℕ
list_size = max_sgl_entries * sgl_desc_size

abbrev pub set_admin : (DriverQueue → DriverQueue) → Action (Unit {0})
set_admin f = modify (λ dev. record dev { admin = f dev.admin })

abbrev pub set_io : (DriverQueue → DriverQueue) → Action (Unit {0})
set_io f = modify (λ dev. record dev { io = f dev.io })

-- The admin rings' addresses and depth, as the controller is told them.
unfoldable pub publish_admin : Action (Unit {0})
publish_admin = do
  dev ← get_dev
  write_to Reg.admin_sq_lo (dev.admin.sq_dma % u32)
  write_to Reg.admin_sq_hi ((dev.admin.sq_dma / u32) % u32)
  write_to Reg.admin_cq_lo (dev.admin.cq_dma % u32)
  write_to Reg.admin_cq_hi ((dev.admin.cq_dma / u32) % u32)
  write_to Reg.admin_qsize dev.admin.depth

-- The labels of `openflash_setup_admin_queue`, the last one first.
unfoldable pub free_admin_sq : ℕ → Action ℕ
free_admin_sq ret = do dev ← get_dev; free (dma (sq_size dev.admin) dev.admin.sq_dma); pure ret

unfoldable pub free_admin_cq : ℕ → Action ℕ
unfolding free_admin_sq
free_admin_cq ret = do
  dev ← get_dev
  free (dma (cq_size dev.admin) dev.admin.cq_dma)
  free_admin_sq ret

unfoldable pub free_vectors : ℕ → Action ℕ
unfolding free_admin_cq
free_vectors ret = do free vectors; free_admin_cq ret

unfoldable pub disable : ℕ → Action ℕ
unfolding free_vectors
disable ret = do
  write_to Reg.control 0
  modify (λ dev. record dev { nr_queues = 0 })
  free (irq 0)
  free_vectors ret

module _ (k : Kernel) where
  -- Its steps, from the last one on: each is what follows a successful call.
  unfoldable pub enable_controller : Action ℕ
  unfolding publish_admin disable
  enable_controller = do
    modify (λ dev. record dev { nr_queues = 1 })
    publish_admin
    write_to Reg.control 1
    note (did wait_ready)
    ret ← ask k ready
    goto disable ret (pure 0)

  unfoldable pub admin_irq : Action ℕ
  unfolding enable_controller free_vectors
  admin_irq = do ret ← obtain k (irq 0); goto free_vectors ret enable_controller

  unfoldable pub admin_vectors : Action ℕ
  unfolding admin_irq free_admin_cq
  admin_vectors = do ret ← obtain k vectors; goto free_admin_cq ret admin_irq

  unfoldable pub admin_cq : Option ℕ → Action ℕ
  unfolding admin_vectors free_admin_sq
  admin_cq none = free_admin_sq Errno.enomem
  admin_cq (some handle) = do set_admin (λ q. record q { cq_dma = handle }); admin_vectors

  unfoldable pub admin_sq : Option ℕ → Action ℕ
  unfolding admin_cq
  admin_sq none = pure Errno.enomem
  admin_sq (some handle) = do
    set_admin (λ q. record q { sq_dma = handle })
    dev ← get_dev
    cqes ← alloc k (cq_size dev.admin)
    admin_cq cqes

  unfoldable pub setup_admin_queue : Action ℕ
  unfolding admin_sq
  setup_admin_queue = do
    missing ← ask k get_memory
    goto (λ e. pure Errno.enomem) missing
        (do
          modify (λ dev. record dev {
            has_queues = true;
            admin = started 0 dev.queue_depth zeroed;
            io = zeroed;
          })
          dev ← get_dev
          sq_cmds ← alloc k (sq_size dev.admin)
          admin_sq sq_cmds)

module _ (k : Kernel) where
  -- `openflash_teardown_admin_queue` after its guard.
  unfoldable pub release_admin_queue : Action (Unit {0})
  release_admin_queue = do
    write_to Reg.control 0
    status ← read_from k Reg.status
    free (irq 0)
    free vectors
    dev ← get_dev
    free (dma (cq_size dev.admin) dev.admin.cq_dma)
    free (dma (sq_size dev.admin) dev.admin.sq_dma)
    modify (λ d. record d { nr_queues = 0 })

  unfoldable pub teardown_admin_queue : Action (Unit {0})
  unfolding release_admin_queue
  teardown_admin_queue = do dev ← get_dev; if dev.has_queues then release_admin_queue else pure tt
