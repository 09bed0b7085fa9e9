-- ===== src/Device/Store.antt =====
-- openflash_execute as a store of blocks: a write changes its own blocks only, a read returns what
-- was written last, a discard zeroes, and what the range check does at the end of the medium and
-- where the byte offset wraps.
use openflash_controller_lab.Base.{
  ℕ, ◌+◌, ◌-◌, ◌*◌, ◌≤◌, ◌<◌, ◌≡◌, ◌⊎◌, ◌∙◌, refl, inl, inr, true, false, List, arith, length,
  replicate, length-replicate, ok, Bool-cases, if◌then◌else◌, leb, ltb, ◌&&◌,
}
use openflash_controller_lab.Base.Splice.{
  range, splice, length-splice, range-splice_self, range-splice_ne, range-splice_in,
  range-replicate,
}
use openflash_controller_lab.Abi.Struct.{Command}
use openflash_controller_lab.Abi.Opcode
use openflash_controller_lab.Abi.StatusCode
use openflash_controller_lab.Platform.{Host, IsLawful}
use openflash_controller_lab.Device.State.{State, block_size}
use openflash_controller_lab.Device.Execute.{Executed, execute, write_result, finish}
use openflash_controller_lab.Device.Contents.{
  InRange, IsPlain, block, payload, zeros, written, execute-write, execute-read, execute-discard,
  payload_fits,
}

-- Splicing whole blocks changes just those blocks.
block-splice :
    (s : State) (lba n i : ℕ) (bs : List ℕ)
    → length bs ≡ n * block_size
    → (lba + n) * block_size ≤ length s.storage
    → block (record s { storage = splice s.storage (lba * block_size) bs }) i ≡ (
        if leb lba i && ltb i (lba + n)
        then range bs ((i - lba) * block_size) block_size
        else block s i)
block-splice s lba n i bs e h = elim (Bool-cases (leb lba i && ltb i (lba + n))) [
  | inl mine ↦
      let lo : lba ≤ i = ground arith in
      let hi : i < lba + n = ground arith in
      let at : i * block_size ≡ lba * block_size + (i - lba) * block_size = omega arith in
      rw (mine, at)
        (range-splice_in s.storage (lba * block_size) ((i - lba) * block_size) block_size bs
          (omega arith) (omega arith))
  | inr other ↦ rw other (
      range-splice_ne s.storage (lba * block_size) bs (i * block_size) block_size (omega arith)
        (apart other))
]
  where
    apart :
        (leb lba i && ltb i (lba + n)) ≡ false
        → (lba * block_size + length bs ≤ i * block_size)
          ⊎ (i * block_size + block_size ≤ lba * block_size)
    apart f = elim (Bool-cases (leb lba i)) [
      | inl above ↦ let k : lba + n ≤ i = ground arith in inl (omega arith)
      | inr below ↦ let k : i < lba = ground arith in inr (omega arith)
    ]

module _ (H : Host) (L : IsLawful H) (s : State) (w : H.World) (cmd : Command)
    (r : InRange s cmd) where
  pub state-write_result :
      (st : List ℕ) → (write_result H s cmd (true, st, w)).state ≡ record s { storage = st }
  unfolding write_result
  state-write_result st = ground arith

  -- A write from one buffer, over blocks that exist, puts the buffer's blocks in their places and
  -- leaves every other block as it was.
  pub write_blocks :
      cmd.opcode ≡ Opcode.write
      → IsPlain cmd
      → (e : Executed H) × (execute H s w cmd ≡ ok e)
        × ((i : ℕ)
            → block e.state i ≡ (
                if leb cmd.lba i && ltb i (cmd.lba + cmd.nblocks)
                then range (payload H w cmd) ((i - cmd.lba) * block_size) block_size
                else block s i))
  write_blocks is p = (
    write_result H s cmd (true, (written H L s w cmd r).storage, w),
    execute-write H L s w cmd r is p,
    λ i. rw (state-write_result (written H L s w cmd r).storage) (
        block-splice s cmd.lba cmd.nblocks i (payload H w cmd) (L.length-dma_read w cmd.data_addr _)
          (omega (arith, r.within, r.storage_full))),
  )

  -- A discard over blocks that exist succeeds, makes them zero and leaves every other block as it
  -- was.
  pub discard_blocks :
      cmd.opcode ≡ Opcode.discard
      → (e : Executed H) × (execute H s w cmd ≡ ok e)
        × (e.status ≡ StatusCode.success)
        × ((i : ℕ)
            → block e.state i ≡ (
                if leb cmd.lba i && ltb i (cmd.lba + cmd.nblocks)
                then replicate block_size 0
                else block s i))
  discard_blocks is =
      let st = splice s.storage (cmd.lba * block_size) (zeros cmd) in
      (
        finish H StatusCode.success cmd.nblocks (record s { storage = st }) w,
        execute-discard H L s w cmd r is,
        refl,
        λ i.
            block-splice s cmd.lba cmd.nblocks i (zeros cmd) (length-replicate _ 0)
              (omega (arith, r.within, r.storage_full))
            ∙ zeroed i,
      )
    where
      zeroed :
          (i : ℕ)
          → (if leb cmd.lba i && ltb i (cmd.lba + cmd.nblocks)
              then range (zeros cmd) ((i - cmd.lba) * block_size) block_size
              else block s i)
            ≡ (if leb cmd.lba i && ltb i (cmd.lba + cmd.nblocks)
                then replicate block_size 0
                else block s i)
      zeroed i = elim (Bool-cases (leb cmd.lba i && ltb i (cmd.lba + cmd.nblocks))) [
        | inl mine ↦
            let hi : i < cmd.lba + cmd.nblocks = ground arith in
            let lo : cmd.lba ≤ i = ground arith in
            rw mine (
              range-replicate (cmd.nblocks * block_size) ((i - cmd.lba) * block_size) block_size 0
                (omega arith))
        | inr other ↦ rw other
      ]

-- What a read finds after a plain write to the same blocks is what the write took: a second command
-- that reads those blocks into a buffer in guest memory succeeds and leaves the bytes there, whether
-- or not the write asked for FUA.
pub write-read :
    (H : Host) (L : IsLawful H) (s : State) (w : H.World) (cmd later : Command)
    → InRange s cmd
    → cmd.opcode ≡ Opcode.write
    → IsPlain cmd
    → later.opcode ≡ Opcode.read
    → IsPlain later
    → later.lba ≡ cmd.lba
    → later.nblocks ≡ cmd.nblocks
    → H.is_ram later.data_addr (cmd.nblocks * block_size) ≡ true
    → (e : Executed H) × (f : Executed H) × (execute H s w cmd ≡ ok e)
      × (execute H e.state e.world later ≡ ok f)
      × (f.status ≡ StatusCode.success)
      × (H.dma_read f.world later.data_addr (cmd.nblocks * block_size) ≡ payload H w cmd)
write-read H L s w cmd later r is p is' p' same_lba same_n ram = (
  e,
  finish H StatusCode.success later.nblocks e.state (H.dma_write e.world later.data_addr found),
  execute-write H L s w cmd r is p,
  execute-read H L e.state e.world later there is' p',
  refl,
  rw stored read_back,
)
  where
    e : Executed H
    e = write_result H s cmd (true, (written H L s w cmd r).storage, w)

    found : List ℕ
    found = range e.state.storage (later.lba * block_size) (later.nblocks * block_size)

    left : e.state ≡ written H L s w cmd r
    left = state-write_result H L s w cmd r (written H L s w cmd r).storage

    size : length (payload H w cmd) ≡ cmd.nblocks * block_size
    size = L.length-dma_read w cmd.data_addr (cmd.nblocks * block_size)

    there : InRange e.state later
    there = rw left (record {
      some_blocks = omega (arith, same_n, r.some_blocks);
      within = rw (same_lba, same_n) r.within;
      capacity_fits = r.capacity_fits;
      storage_full =
          length-splice s.storage (cmd.lba * block_size) (payload H w cmd)
            (payload_fits H L s w cmd r)
          ∙ r.storage_full;
    })

    stored : found ≡ payload H w cmd
    stored =
        rw (left, same_lba, same_n, ← size)
          (range-splice_self s.storage (cmd.lba * block_size) (payload H w cmd)
            (payload_fits H L s w cmd r))

    read_back :
        H.dma_read
          (H.dma_write e.world later.data_addr (payload H w cmd))
          later.data_addr
          (cmd.nblocks * block_size)
        ≡ payload H w cmd
    read_back = rw (← size) (
        L.dma_read-dma_write e.world later.data_addr (payload H w cmd)
          (L.dma_read-AreBytes w cmd.data_addr _) (rw size ram))
