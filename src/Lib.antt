-- ===== src/Lib.antt =====
-- OpenFlash Controller Lab: the emulated NAND controller, and the ABI that it shares with the Linux
-- driver. Paths are from the repository's root.
--
-- The parts and their files:
--   Abi/*        driver/openflash/openflash_abi.h and the same definitions at the head of
--                qemu/hw/block/openflash.c: registers (Reg), opcodes, status codes, and the packed
--                little-endian structures with their bytes (Struct, Layout).
--   Platform     what the controller calls and the repository does not hold: QEMU's DMA and MSI-X and
--                GLib's files, as a record of operations (`Host`) with the documented behaviour that
--                the proofs rely on (`IsLawful`). Platform/Memory meets it.
--   Device/*     qemu/hw/block/openflash.c. State is OpenFlashState and openflash_reset; Transfer is
--                openflash_transfer; Execute is openflash_execute with openflash_persist; Doorbell is
--                openflash_process_sq; Mmio is openflash_mmio_read and openflash_mmio_write; Realize
--                is openflash_realize. Bounds, Invariant, Round, Drained, Progress, Hang, Contents,
--                Store, Wrap, Scatter, Registers, Statuses and Durable prove what these do.
--   Driver/*     driver/openflash: State is the queue and the slots of openflash.h; Completion is the
--                completion side of openflash_queue.c (openflash_drain_admin_cq, openflash_io_irq,
--                openflash_blk_status, openflash_fail_io_requests); Request is openflash_queue_rq of
--                openflash_core.c. Kernel is the device structure and what the driver asks of
--                Linux; Admin is openflash_irq and the admin commands, Setup and IoSetup the set-up
--                and the teardown of the two queues, Recovery openflash_reset_controller,
--                openflash_reset_work and openflash_timeout, and Probe openflash_probe,
--                openflash_remove and the block device. Drain, Ends, Handlers, Mapped, Accepted,
--                Complete, Slots, Fua, Overrun, Refused and Fail prove what the handlers
--                do; Waiting, Waits, Replied and Identify what an admin command comes back with;
--                Holds, Balance, Lists, IoUnwind, IoBalance, Teardown, Removal and Arrival what is held of
--                the kernel's resources; Io, Queued, Returned, Idle, Restart, Dangling, Running and Frozen
--                the driver at work.
--   Ring         the completion ring in guest memory, which the two programs share: what Device/Doorbell
--                writes and what Driver/Completion reads.
--   Link         the driver's admin commands at the controller, and the disk that the driver makes of
--                the answers.
--   Base/*       shared names: Boolean tests, lists over native indices, ranges of lists, machine
--                words and bytes, bit_or, and results that may fault.
--
-- How state and operations correspond: an operation takes the state and the platform's world and
-- returns both anew, in an `Outcome` where the C code could leave an allocation (`out_of_bounds`) or
-- loop for ever (`out_of_fuel`). Integers are natural numbers with the wrap-around of their C type
-- written out. The array of two queues is the fields `admin` and `io`. The while loop of
-- openflash_process_sq runs on fuel; 4098 rounds are enough for a ring of at most 4096 entries, one
-- of them for a head that a smaller ADMIN_QSIZE has left outside the ring.
--
-- The driver's operations return the queue and the list of what they ask of the kernel (unmapping,
-- ending or starting a request, register writes), in order. The ring of completions is a function of
-- the index, fixed while a handler runs, whose loop has more rounds than there are new entries.
--
-- The driver's life runs against a kernel and a controller that answer each call from the calls made
-- so far (`Kernel`), so a theorem about every kernel is one about every pattern of failures. An action
-- takes the device and the log of calls and returns both anew. A chain of gotos is a chain of
-- functions, each label going on with the one below it. An interrupt is a whole step: those of vector 0
-- are taken while an admin command waits, those of vector 1 while the queue is frozen or the disk is
-- deleted, if the I/O queue is up; between the handlers they are steps of `Reach`. One run of a handler
-- has rounds for the depth of the ring and one more, which is enough for any contents of the ring. A
-- call that waits for what never comes is the fault `blocked`. Errors are Linux's numbers without
-- their sign. What is held counts the kernel's resources that set-up takes; the mappings of a request's
-- segments are events of the handlers and are followed there.
--
-- Not modelled: openflash_exit, the QOM and PCI registration, logging, re-entrant MMIO through DMA,
-- what the kernel frees by itself (devm and pcim), the tables that register the module, locks and
-- memory barriers (handlers do not overlap here), the qtests, and the Python
-- simulator, which shares no code with the C programs.
pub mod Base
pub mod Abi
pub mod Platform
pub mod Device
pub mod Driver
pub mod Ring
pub mod Link
mod Tests
