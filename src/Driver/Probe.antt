-- ===== src/Driver/Probe.antt =====
-- driver/openflash/openflash_core.c: the block device (openflash_register_block_device,
-- openflash_unregister_block_device), and the driver's arrival and departure (openflash_probe,
-- openflash_remove).
use openflash_controller_lab.Base.{
  ℕ, ◌-◌, ◌*◌, ◌%◌, false, none, some, ◌==◌, if◌then◌else◌, test_bit, bit_or, u64,
}
use openflash_controller_lab.Abi.Reg
use openflash_controller_lab.Abi.Struct.{max_sgl_entries}
use openflash_controller_lab.Device.State.{block_size}
use openflash_controller_lab.Driver.Errno
use openflash_controller_lab.Driver.State.{sts_ioerr, cancel_reset, sectors_per_block}
use openflash_controller_lab.Driver.Kernel.{
  Kernel, master, tag_set, disk, disk_added, get_memory, enable_device, set_dma_mask, map_regions,
  acquire, did, Dev, Gendisk, Action, ◌>>=◌, ◌>>◌, pure, get_dev, modify, note, free, ask,
  read_from, obtain,
}
use openflash_controller_lab.Driver.Admin.{admin_identify}
use openflash_controller_lab.Driver.Setup.{goto, zeroed, setup_admin_queue, teardown_admin_queue}
use openflash_controller_lab.Driver.IoSetup.{setup_io_queue, teardown_io_queue}
use openflash_controller_lab.Driver.Recovery.{
  take_interrupts, wait_drained, fail_requests, with_disk,
}

-- `OPENFLASH_ABI_VERSION`
abbrev pub supported_abi : ℕ
supported_abi = bit_or (0 * 65536) 2

-- The disk as `openflash_register_block_device` describes it.
abbrev pub described : Dev → Gendisk
described dev = record {
  tags = dev.queue_depth - 1;
  block_size = block_size;
  max_hw_sectors = (dev.queue_depth - 1) * sectors_per_block;
  max_segments = max_sgl_entries;
  write_cache = test_bit dev.capabilities 0;
  fua = test_bit dev.capabilities 1;
  sectors = (dev.capacity_blocks * sectors_per_block) % u64;
}

unfoldable pub free_tag_set : ℕ → Action ℕ
free_tag_set ret = do free tag_set; pure ret

unfoldable pub put_disk : ℕ → Action ℕ
unfolding free_tag_set
put_disk ret = do free disk; modify (λ dev. record dev { gendisk = none }); free_tag_set ret

-- `OPENFLASH_DEFAULT_Q_DEPTH`, and the device structure in zeroed memory with what is read.
abbrev pub default_depth : ℕ
default_depth = 128

abbrev pub new_dev : ℕ → Dev
new_dev capabilities = record {
  has_queues = false;
  admin = zeroed;
  io = zeroed;
  nr_queues = 0;
  queue_depth = default_depth;
  capacity_blocks = 0;
  capabilities = capabilities;
  gendisk = none;
  reset_pending = false;
}

module _ (k : Kernel) where
  unfoldable pub add_disk : Action ℕ
  unfolding put_disk
  add_disk = do
    modify (λ dev. record dev { gendisk = some (described dev) })
    ret ← obtain k disk_added
    goto put_disk ret (pure 0)

  unfoldable pub register_block_device : Action ℕ
  unfolding add_disk free_tag_set
  register_block_device = do
    ret ← obtain k tag_set
    goto pure ret (do ret' ← obtain k disk; goto free_tag_set ret' add_disk)

  -- `del_gendisk` waits for the requests that were started; interrupts can arrive meanwhile.
  unfoldable pub delete_disk : Action (Unit {0})
  unfolding take_interrupts
  delete_disk = do free disk_added; take_interrupts k; wait_drained k

  unfoldable pub release_disk : Action (Unit {0})
  unfolding fail_requests
  release_disk = do
    fail_requests sts_ioerr
    free disk
    modify (λ dev. record dev { gendisk = none })
    free tag_set

  unfoldable pub unregister : Action (Unit {0})
  unfolding delete_disk release_disk
  unregister = do delete_disk; release_disk

  unfoldable pub unregister_block_device : Action (Unit {0})
  unfolding unregister
  unregister_block_device = do dev ← get_dev; with_disk dev.gendisk (pure tt) unregister

  -- The ways out of `openflash_probe`, the last one first.
  unfoldable pub clear_master : ℕ → Action ℕ
  clear_master ret = do free master; pure ret

  unfoldable pub undo_admin : ℕ → Action ℕ
  unfolding teardown_admin_queue clear_master
  undo_admin ret = do teardown_admin_queue k; clear_master ret

  unfoldable pub undo_io : ℕ → Action ℕ
  unfolding teardown_io_queue undo_admin
  undo_io ret = do teardown_io_queue; undo_admin ret

  -- Its steps, from the last one on.
  unfoldable pub probe_disk : Action ℕ
  unfolding register_block_device undo_io
  probe_disk = do ret ← register_block_device; goto undo_io ret (pure 0)

  unfoldable pub probe_io : Action ℕ
  unfolding setup_io_queue undo_admin probe_disk
  probe_io = do ret ← setup_io_queue k; goto undo_admin ret probe_disk

  unfoldable pub probe_identify : Action ℕ
  unfolding admin_identify undo_admin probe_io
  probe_identify = do ret ← admin_identify k; goto undo_admin ret probe_io

  unfoldable pub probe_queues : Action ℕ
  unfolding setup_admin_queue clear_master probe_identify
  probe_queues = do
    note (acquire master)
    ret ← setup_admin_queue k
    goto clear_master ret probe_identify

  unfoldable pub probe_device : Action ℕ
  unfolding probe_queues
  probe_device = do
    capabilities ← read_from k Reg.capabilities
    modify (λ dev. new_dev (capabilities % u64))
    version ← read_from k Reg.abi_version
    if version == supported_abi then probe_queues else pure Errno.eproto

  unfoldable pub probe : Action ℕ
  unfolding probe_device
  probe = do
    enabled ← ask k enable_device
    goto pure enabled (do
      masked ← ask k set_dma_mask
      goto pure masked (do
        mapped ← ask k map_regions
        goto pure mapped
            (do missing ← ask k get_memory; goto (λ e. pure Errno.enomem) missing probe_device)))

  unfoldable pub remove : Action (Unit {0})
  unfolding unregister_block_device teardown_io_queue teardown_admin_queue
  remove = do
    note (did cancel_reset)
    unregister_block_device
    teardown_io_queue
    teardown_admin_queue k
    free master
