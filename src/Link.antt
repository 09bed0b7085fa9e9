-- ===== src/Link.antt =====
-- qemu/hw/block/openflash.c against driver/openflash: what the driver's admin commands do at the
-- controller, and what its answers make of the driver's queue and disk.
use native.Mathlib.Nat.{mod-eq_of_lt, mod-lt, div-add-mod'}
use openflash_controller_lab.Base.{
  ℕ, inl, inr, Bool, Bool-cases, ◌+◌, ◌*◌, ◌/◌, ◌%◌, ◌≤◌, ◌<◌, ◌≡◌, ◌≢◌, ◌∙◌, refl, sym, ap, bit_or,
  true, false, arith, ◌==◌, u16, u32, u64, Succeeds, Gives,
}
use openflash_controller_lab.Abi.Opcode
use openflash_controller_lab.Abi.StatusCode
use openflash_controller_lab.Abi.Struct.{Command}
use openflash_controller_lab.Platform.{Host}
use openflash_controller_lab.Device.State.{State, Queue, block_size}
use openflash_controller_lab.Device.Execute.{
  execute, create_ioq, rejects_ioq, ioq_id, new_ioq, finish, outside_capacity, byte_offset,
  byte_length,
}
use openflash_controller_lab.Device.Statuses.{execute-answer}
use openflash_controller_lab.Driver.State.{DriverQueue, sectors_per_block}
use openflash_controller_lab.Driver.Kernel.{Sys}
use openflash_controller_lab.Driver.Admin.{
  addressed, create_command, created, empty_command, take_capacity, result,
}
use openflash_controller_lab.Driver.Request.{
  BlkRequest, base_command, with_fua, with_list, final_command, misaligned,
}
use openflash_controller_lab.Driver.Probe.{described}

-- A queue of the driver and one of the controller stand for the same rings, at the same positions.
pub record Agrees (q : DriverQueue) (queue : Queue) : Type 0 where
  pub sq : queue.sq_addr ≡ q.sq_dma
  pub cq : queue.cq_addr ≡ q.cq_dma
  pub depth_lem : queue.depth ≡ q.depth
  pub next_command : queue.sq_head ≡ q.sq_tail
  pub next_completion : queue.cq_tail ≡ q.cq_head
  pub phase : queue.cq_phase ≡ q.cq_phase
  pub vector : queue.vector ≡ q.qid
  pub enabled : queue.enabled ≡ true

-- The I/O queue before its first command.
pub record IsFresh (q : DriverQueue) : Type 0 where
  pub is_io : q.qid ≡ 1
  pub tail : q.sq_tail ≡ 0
  pub head : q.cq_head ≡ 0
  pub first_phase : q.cq_phase ≡ 1
  pub some_entries : 0 < q.depth
  pub not_many : q.depth ≤ 4096
  pub sq_given : q.sq_dma ≢ 0
  pub cq_given : q.cq_dma ≢ 0

module _ (H : Host) (s : State) (w : H.World) where
  creates :
      (q : DriverQueue) (cmd : Command)
      → IsFresh q
      → cmd.control ≡ 65537
      → cmd.nblocks ≡ q.depth
      → cmd.data_addr ≡ q.sq_dma
      → cmd.metadata_addr ≡ q.cq_dma
      → rejects_ioq cmd ≡ false
  unfolding rejects_ioq
  creates q cmd v c n a b =
      ground (arith, c, n, a, b, v.some_entries, v.not_many, v.sq_given, v.cq_given)

  creates_queue :
      (q : DriverQueue) (cmd : Command)
      → IsFresh q
      → cmd.control ≡ 65537
      → cmd.nblocks ≡ q.depth
      → cmd.data_addr ≡ q.sq_dma
      → cmd.metadata_addr ≡ q.cq_dma
      → create_ioq H s w cmd ≡ finish H StatusCode.success 1 (record s { io = new_ioq cmd }) w
  unfolding create_ioq
  creates_queue q cmd v c n a b =
      let id : ioq_id cmd ≡ 1 = ap (λ (x : ℕ). x % u16) c in rw (creates q cmd v c n a b, id) refl

  -- The driver's CREATE_IOQ for an I/O queue that has just been started or rewound, of 1 to 4096
  -- entries and with rings at addresses other than 0: the controller accepts it, its I/O queue
  -- then stands for the driver's rings at the driver's positions and phase and for the driver's
  -- vector, nothing else of the controller changes, and the driver takes the answer for success.
  pub create_command-created :
      (a q : DriverQueue)
      → IsFresh q
      → Succeeds
          (λ e.
            (e.status ≡ StatusCode.success)
            × Agrees q e.state.io
            × (e.state ≡ record s { io = e.state.io })
            × (e.world ≡ w)
            × (created q.qid (result e.result) ≡ 0))
          (execute H s w (addressed a (create_command q)))
  unfolding execute created
  create_command-created a q v =
      let cmd = addressed a (create_command q) in
      let number : cmd.control ≡ 65537 = ap (λ (x : ℕ). bit_or (1 * 65536) (x % u16)) v.is_io in
      let entries : cmd.nblocks ≡ q.depth = mod-eq_of_lt (omega (arith, v.not_many)) in
      let same : (1 == q.qid) ≡ true = ground (arith, v.is_io) in
      rw (creates_queue q cmd v number entries refl refl, same)
        (
          refl,
          record {
            sq = refl;
            cq = refl;
            depth_lem = entries;
            next_command = sym v.tail;
            next_completion = sym v.head;
            phase = sym v.first_phase;
            vector = ap (λ (x : ℕ). (x / u16) % u16) number ∙ sym v.is_io;
            enabled = refl;
          },
          refl,
          refl,
          refl,
        )

  -- What the driver makes of the answer to its IDENTIFY: for a controller with a disk of at least one
  -- block and less than 2 ^ 64 bytes it succeeds, and the sectors of the disk that it then describes are
  -- the whole blocks of the controller's, with less than one block left over.
  pub identify-described :
      (a : DriverQueue) (host : Sys)
      → block_size ≤ s.capacity
      → s.capacity < u64
      → Succeeds
          (λ e.
            Succeeds
              (λ r.
                (r.0 ≡ 0)
                × ((described r.1.dev).sectors * 512 ≤ s.capacity)
                × (s.capacity < (described r.1.dev).sectors * 512 + block_size))
              (take_capacity (result e.result) host))
          (execute H s w (addressed a (empty_command Opcode.identify)))
  unfolding execute take_capacity
  identify-described a host some_block small =
      let blocks = s.capacity / block_size in
      let parts = div-add-mod' s.capacity block_size in
      let rest = mod-lt s.capacity pos in
      let not_zero : (blocks == 0) ≡ false = ground (arith, some_block) in
      let whole : (blocks * sectors_per_block) % u64 ≡ blocks * sectors_per_block =
        mod-eq_of_lt (omega (arith, parts, small)) in
      rw not_zero (refl, omega (arith, parts, rest, whole), omega (arith, parts, rest, whole))
    where
      pos : 0 < block_size
      pos = omega arith

-- The list and FUA leave the blocks of a command alone.
final_command-range :
    (q : DriverQueue) (rq : BlkRequest) (opcode mapped sgl_dma : ℕ)
    → ((final_command q rq opcode mapped sgl_dma).lba ≡ rq.pos / sectors_per_block)
      × ((final_command q rq opcode mapped sgl_dma).nblocks ≡ (rq.bytes / block_size) % u32)
unfolding with_list
final_command-range q rq opcode mapped sgl_dma = elim (Bool-cases (mapped == 0)) [
  | inl no_list ↦ rw no_list (flagged rq.fua)
  | inr listed ↦ rw listed (flagged rq.fua)
]
  where
    flagged :
        (fua : Bool)
        → ((with_fua fua (base_command q rq opcode)).lba ≡ rq.pos / sectors_per_block)
          × ((with_fua fua (base_command q rq opcode)).nblocks ≡ (rq.bytes / block_size) % u32)
    flagged true = (refl, refl)
    flagged false = (refl, refl)

-- The range check lets a request within the disk's sectors pass.
final_command-capacity :
    (s : State) (q : DriverQueue) (rq : BlkRequest) (opcode mapped sgl_dma sectors : ℕ)
    → s.capacity < u64
    → sectors * 512 ≤ s.capacity
    → misaligned q rq ≡ false
    → rq.bytes < u32
    → rq.pos + rq.bytes / 512 ≤ sectors
    → outside_capacity s (final_command q rq opcode mapped sgl_dma) ≡ false
unfolding outside_capacity misaligned
final_command-capacity s q rq opcode mapped sgl_dma sectors small whole aligned few within =
    let cmd = final_command q rq opcode mapped sgl_dma in
    let (lba, nblocks) = final_command-range q rq opcode mapped sgl_dma in
    let pos_aligned : rq.pos % sectors_per_block ≡ 0 = ground (arith, aligned) in
    let bytes_aligned : rq.bytes % block_size ≡ 0 = ground (arith, aligned) in
    let pos_parts = div-add-mod' rq.pos sectors_per_block in
    let bytes_parts = div-add-mod' rq.bytes block_size in
    let sector_parts = div-add-mod' rq.bytes 512 in
    let sector_rest = mod-lt rq.bytes (some_bytes) in
    let offset : byte_offset cmd ≡ rq.pos * 512 = omega (
      arith,
      ap (λ (n : ℕ). (n * block_size) % u64) lba,
      pos_parts,
      pos_aligned,
      small,
      whole,
      within,
    ) in
    let length_lem : byte_length cmd ≡ rq.bytes =
      omega
        (arith, ap (λ (n : ℕ). (n * block_size) % u64) nblocks, bytes_parts, bytes_aligned, few) in
    ground (
      arith, offset, length_lem, sector_parts, sector_rest, bytes_parts, bytes_aligned, small,
      whole, within,
    )
  where
    some_bytes : 0 < 512
    some_bytes = omega arith

-- A request of fewer than 2 ^ 32 bytes for whole blocks within the sectors of a disk of whole blocks is
-- a command that passes the controller's range check, and that it does not answer with LBA_RANGE.
pub final_command-inside :
    (H : Host) (s : State) (w : H.World) (q : DriverQueue) (rq : BlkRequest)
    (opcode mapped sgl_dma sectors : ℕ)
    → s.capacity < u64
    → sectors * 512 ≤ s.capacity
    → misaligned q rq ≡ false
    → rq.bytes < u32
    → rq.pos + rq.bytes / 512 ≤ sectors
    → (outside_capacity s (final_command q rq opcode mapped sgl_dma) ≡ false)
      × Gives
          (λ e. e.status ≢ StatusCode.lba_range)
          (execute H s w (final_command q rq opcode mapped sgl_dma))
final_command-inside H s w q rq opcode mapped sgl_dma sectors small whole aligned few within =
    let inside =
      final_command-capacity s q rq opcode mapped sgl_dma sectors small whole aligned few within in
    (inside, execute-answer H s (final_command q rq opcode mapped sgl_dma) w inside)
