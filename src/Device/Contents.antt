-- ===== src/Device/Contents.antt =====
-- What the data commands do to the blocks: openflash_execute seen as a block store.
use openflash_controller_lab.Base.{
  ℕ, ◌+◌, ◌*◌, ◌≤◌, ◌<◌, ◌≡◌, ◌≢◌, ◌∙◌, Bool, true, false, List, arith, length, replicate,
  length-replicate, u64, ok, if◌then◌else◌, ◌==◌, ◌>>=◌,
}
use openflash_controller_lab.Base.Splice.{range, splice}
use openflash_controller_lab.Abi.Struct.{Command, has_sgl}
use openflash_controller_lab.Abi.Opcode
use openflash_controller_lab.Abi.StatusCode
use openflash_controller_lab.Platform.{Host, IsLawful}
use openflash_controller_lab.Device.State.{State, block_size}
use openflash_controller_lab.Device.Transfer.{transfer, dma_move}
use openflash_controller_lab.Device.Execute.{
  execute, run_data, run_read, run_write, run_discard, read_result, write_result, finish,
  outside_capacity, byte_offset, byte_length,
}
use openflash_controller_lab.Device.Bounds.{store_bytes-eq-ok, load_bytes-eq-ok}

-- A command that is neither an admin command nor a flush.
pub record IsData (cmd : Command) : Type 0 where
  pub not_identify : cmd.opcode ≢ Opcode.identify
  pub not_create : cmd.opcode ≢ Opcode.create_ioq
  pub not_flush : cmd.opcode ≢ Opcode.flush

-- The blocks of the command exist.
pub record InRange (s : State) (cmd : Command) : Type 0 where
  pub some_blocks : 1 ≤ cmd.nblocks
  pub within : (cmd.lba + cmd.nblocks) * block_size ≤ s.capacity
  pub capacity_fits : s.capacity < u64
  pub storage_full : length s.storage ≡ s.capacity

-- One contiguous buffer.
pub record IsPlain (cmd : Command) : Type 0 where
  pub no_list : has_sgl cmd ≡ false
  pub buffer : 1 ≤ cmd.data_addr

-- Block `i` of the medium.
abbrev pub block : State → ℕ → List ℕ
block s i = range s.storage (i * block_size) block_size

module _ (s : State) (cmd : Command) (r : InRange s cmd) where
  offset_lem : byte_offset cmd ≡ cmd.lba * block_size
  offset_lem = omega arith

  length_lem : byte_length cmd ≡ cmd.nblocks * block_size
  length_lem = omega arith

  inside : outside_capacity s cmd ≡ false
  unfolding outside_capacity
  inside = ground (arith, offset_lem, length_lem)

module _ (H : Host) (s : State) (w : H.World) (cmd : Command) where
  -- A data command with some blocks is refused by its range, or goes to the switch.
  pub execute_data :
      IsData cmd
      → 1 ≤ cmd.nblocks
      → execute H s w cmd ≡ (
          if outside_capacity s cmd
          then ok (finish H StatusCode.lba_range 0 s w)
          else run_data H s w cmd)
  unfolding execute
  execute_data d n =
      let a : (cmd.opcode == Opcode.identify) ≡ false = ground (arith, d.not_identify) in
      let b : (cmd.opcode == Opcode.create_ioq) ≡ false = ground (arith, d.not_create) in
      let c : (cmd.opcode == Opcode.flush) ≡ false = ground (arith, d.not_flush) in
      let e : (cmd.nblocks == 0) ≡ false = ground arith in rw (a, b, c, e)

  execute-InRange : IsData cmd → InRange s cmd → execute H s w cmd ≡ run_data H s w cmd
  execute-InRange d r = execute_data d r.some_blocks ∙ rw (inside s cmd r)

-- The bytes that a plain write takes from the guest.
abbrev pub payload : (H : Host) → H.World → Command → List ℕ
payload H w cmd = H.dma_read w cmd.data_addr (cmd.nblocks * block_size)

abbrev pub zeros : Command → List ℕ
zeros cmd = replicate (cmd.nblocks * block_size) 0

IsData-of_write : (cmd : Command) → cmd.opcode ≡ Opcode.write → IsData cmd
IsData-of_write cmd is = ground arith

IsData-of_read : (cmd : Command) → cmd.opcode ≡ Opcode.read → IsData cmd
IsData-of_read cmd is = ground arith

IsData-of_discard : (cmd : Command) → cmd.opcode ≡ Opcode.discard → IsData cmd
IsData-of_discard cmd is = ground arith

transfer-plain :
    (H : Host) (st : List ℕ) (w : H.World) (cmd : Command) (offset n : ℕ) (write : Bool)
    → IsPlain cmd
    → transfer H st w cmd offset n write
      ≡ (dma_move H write cmd.data_addr offset n st w >>= λ moved. ok (true, moved.0, moved.1))
unfolding transfer
transfer-plain H st w cmd offset n write p =
    let there : (cmd.data_addr == 0) ≡ false = ground (arith, p.buffer) in rw (p.no_list, there)

module _ (H : Host) (L : IsLawful H) (s : State) (w : H.World) (cmd : Command)
    (r : InRange s cmd) where
  pub payload_fits : cmd.lba * block_size + length (payload H w cmd) ≤ length s.storage
  payload_fits = omega (arith, L.length-dma_read w cmd.data_addr (cmd.nblocks * block_size))

  -- The state after a plain write: the payload stands at the command's blocks.
  abbrev pub written : State
  written = record s { storage = splice s.storage (cmd.lba * block_size) (payload H w cmd) }

  pub execute-write :
      cmd.opcode ≡ Opcode.write
      → IsPlain cmd
      → execute H s w cmd ≡ ok (write_result H s cmd (true, written.storage, w))
  unfolding run_data run_write dma_move
  execute-write is p =
      let a : (cmd.opcode == Opcode.read) ≡ false = ground (arith, is) in
      let b : (cmd.opcode == Opcode.write) ≡ true = ground (arith, is) in
      execute-InRange H s w cmd (IsData-of_write cmd is) r
      ∙ rw (
        a,
        b,
        offset_lem s cmd r,
        length_lem s cmd r,
        transfer-plain H s.storage w cmd (cmd.lba * block_size) (cmd.nblocks * block_size) true p,
        store_bytes-eq-ok s.storage (cmd.lba * block_size) (payload H w cmd) payload_fits,
      )

  -- A plain read leaves the state alone and puts the blocks into the guest's buffer.
  pub execute-read :
      cmd.opcode ≡ Opcode.read
      → IsPlain cmd
      → execute H s w cmd
        ≡ ok (
            finish H StatusCode.success cmd.nblocks s (
              H.dma_write w cmd.data_addr
                (range s.storage (cmd.lba * block_size) (cmd.nblocks * block_size))))
  unfolding run_data run_read read_result dma_move
  execute-read is p =
      let a : (cmd.opcode == Opcode.read) ≡ true = ground (arith, is) in
      let fits : cmd.lba * block_size + cmd.nblocks * block_size ≤ length s.storage =
        omega (arith, r.within, r.storage_full) in
      execute-InRange H s w cmd (IsData-of_read cmd is) r
      ∙ rw (
        a,
        offset_lem s cmd r,
        length_lem s cmd r,
        transfer-plain H s.storage w cmd (cmd.lba * block_size) (cmd.nblocks * block_size) false p,
        load_bytes-eq-ok s.storage (cmd.lba * block_size) (cmd.nblocks * block_size) fits,
      )

  pub execute-discard :
      cmd.opcode ≡ Opcode.discard
      → execute H s w cmd
        ≡ ok (
            finish H StatusCode.success cmd.nblocks
              (record s { storage = splice s.storage (cmd.lba * block_size) (zeros cmd) })
              w)
  unfolding run_data run_discard
  execute-discard is =
      let a : (cmd.opcode == Opcode.read) ≡ false = ground (arith, is) in
      let b : (cmd.opcode == Opcode.write) ≡ false = ground (arith, is) in
      let c : (cmd.opcode == Opcode.discard) ≡ true = ground (arith, is) in
      let fits : cmd.lba * block_size + length (zeros cmd) ≤ length s.storage =
        omega (
          arith,
          length-replicate {A = ℕ} (cmd.nblocks * block_size) 0,
          r.within,
          r.storage_full,
        ) in
      execute-InRange H s w cmd (IsData-of_discard cmd is) r
      ∙ rw (
        a,
        b,
        c,
        offset_lem s cmd r,
        length_lem s cmd r,
        store_bytes-eq-ok s.storage (cmd.lba * block_size) (zeros cmd) fits,
      )
