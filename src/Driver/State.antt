-- ===== src/Driver/State.antt =====
-- driver/openflash/openflash.h: the driver's view of a queue and of its requests. What only the kernel
-- looks at (locks, the completion object) is left out.
use openflash_controller_lab.Base.{ℕ, Bool, Option, List}
use openflash_controller_lab.Abi.Struct.{Command, SglDesc}

abbrev pub sectors_per_block : ℕ
sectors_per_block = 8

-- `enum dma_data_direction`: the two values that are used, and that of zeroed memory.
pub data Direction : Type 0 where
  bidirectional to_device from_device : Direction

-- The request operations that `openflash_queue_rq` tells apart.
pub data ReqOp : Type 0 where
  op_read op_write op_flush op_discard op_other : ReqOp

-- `blk_status_t`, the values that are used.
pub data BlkStatus : Type 0 where
  sts_ok sts_notsupp sts_ioerr sts_resource sts_target sts_medium sts_timeout : BlkStatus

-- `struct openflash_request`: the block layer's request by its number, none for NULL, and the list
-- with its DMA address.
pub record Request : Type 0 where
  pub rq : Option ℕ
  pub sgl : List SglDesc
  pub sgl_dma : ℕ
  pub nr_mapped : ℕ
  pub dma_dir : Direction

-- `struct openflash_queue`. A ring is its DMA handle; what stands in the submission ring are the
-- events `fill_slot`, and the completion ring is an input of what reads it. `requests` has depth - 1
-- entries, of the I/O queue only. `admin_done` says that `complete` was called on the completion.
pub record DriverQueue : Type 0 where
  pub qid : ℕ
  pub depth : ℕ
  pub sq_tail : ℕ
  pub cq_head : ℕ
  pub cq_phase : ℕ
  pub sq_dma : ℕ
  pub cq_dma : ℕ
  pub next_cid : ℕ
  pub requests : List Request
  pub admin_cid : ℕ
  pub admin_status : ℕ
  pub admin_result : ℕ
  pub admin_error : Bool
  pub admin_pending : Bool
  pub admin_done : Bool

-- What the driver asks of the kernel, in order.
pub data Event : Type 0 where
  -- `dma_unmap_page(addr, length, dir)`
  unmap : ℕ → ℕ → Direction → Event
  -- `blk_mq_end_request(rq, status)`
  end_request : ℕ → BlkStatus → Event
  -- `complete(&queue->admin_done)`
  wake_admin : Event
  -- The stores to `queue->sq_cmds[slot]`.
  fill_slot : ℕ → Command → Event
  -- `blk_mq_start_request(rq)`
  start_request : ℕ → Event
  -- `writel(value, bar + register)`, as register and value
  write_register : ℕ → ℕ → Event
  -- `readl(bar + register)`
  read_register : ℕ → Event
  -- `memset` of the submission and of the completion ring of a queue.
  clear_sq clear_cq : ℕ → Event
  -- `wait_for_completion_timeout(&queue->admin_done)` and `readl_poll_timeout` on the status.
  wait_admin wait_ready : Event
  -- `synchronize_irq(pci_irq_vector(pdev, vector))`
  synchronize_irq : ℕ → Event
  -- `blk_mq_freeze_queue`, `blk_mq_unfreeze_queue`
  freeze unfreeze : Event
  -- `schedule_work(&ofdev->reset_work)`, `cancel_work_sync(&ofdev->reset_work)`
  schedule_reset cancel_reset : Event
