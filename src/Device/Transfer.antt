-- ===== src/Device/Transfer.antt =====
-- `openflash_transfer`: the bytes between the guest's buffers and the storage.
use openflash_controller_lab.Base.{
  ℕ, zero, suc, ◌+◌, ◌-◌, ◌*◌, ◌%◌, Bool, true, false, not, ◌||◌, List, ◌++◌, length, take, drop,
  ltb, leb, ◌==◌, if◌then◌else◌, u16, u64, Outcome, ok, err, out_of_bounds, ◌>>=◌,
}
use openflash_controller_lab.Abi.Struct.{
  Command, SglDesc, sgl_desc_size, max_sgl_entries, has_sgl, decode_sgl_desc,
}
use openflash_controller_lab.Platform.{Host}

-- A write of `bs` to `s->storage + pos`: a fault where it leaves the allocation.
unfoldable pub store_bytes : List ℕ → ℕ → List ℕ → Outcome (List ℕ)
store_bytes storage pos bs =
    if leb (pos + length bs) (length storage)
    then ok (take pos storage ++ (bs ++ drop (pos + length bs) storage))
    else err out_of_bounds

-- A read of `n` bytes from `s->storage + pos`.
unfoldable pub load_bytes : List ℕ → ℕ → ℕ → Outcome (List ℕ)
load_bytes storage pos n =
    if leb (pos + n) (length storage) then ok (take n (drop pos storage)) else err out_of_bounds

module _ (H : Host) where
  -- One `pci_dma_read` into the storage (`write`), or one `pci_dma_write` out of it.
  unfoldable pub dma_move : Bool → ℕ → ℕ → ℕ → List ℕ → H.World → Outcome (List ℕ × H.World)
  dma_move true dma pos n storage w = do
    storage' ← store_bytes storage pos (H.dma_read w dma n)
    ok (storage', w)
  dma_move false dma pos n storage w = do
    bs ← load_bytes storage pos n
    ok (storage, H.dma_write w dma bs)

  -- `!addr || !segment_length || segment_length > length - transferred`
  unfoldable pub rejects_segment : SglDesc → ℕ → ℕ → Bool
  rejects_segment desc length transferred =
      desc.addr == 0 || desc.length == 0 || ltb ((length + u64 - transferred) % u64) desc.length

  unfoldable pub read_desc : H.World → ℕ → ℕ → SglDesc
  read_desc w dma index =
      decode_sgl_desc (H.dma_read w ((dma + index * sgl_desc_size) % u64) sgl_desc_size)

  -- The `for` loop over the entries, by the rounds that are left, and the final test.
  unfoldable pub sgl_loop :
      ℕ → Bool → ℕ → ℕ → ℕ → ℕ → ℕ → List ℕ → H.World → Outcome (Bool × List ℕ × H.World)
  sgl_loop zero write dma offset length index transferred storage w =
      ok (transferred == length, storage, w)
  sgl_loop (suc rounds) write dma offset length index transferred storage w =
      let desc = read_desc w dma index in
      let rest =
        (dma_move write desc.addr (offset + transferred) desc.length storage w >>= λ moved.
        sgl_loop rounds write dma offset length (index + 1) ((transferred + desc.length) % u64)
          moved.0 moved.1) in
      if rejects_segment desc length transferred then ok (false, storage, w) else rest

  unfoldable pub transfer :
      List ℕ → H.World → Command → ℕ → ℕ → Bool → Outcome (Bool × List ℕ × H.World)
  transfer storage w cmd offset length write =
      let dma = cmd.data_addr in
      let count = cmd.control % u16 in
      if not (has_sgl cmd)
      then (if dma == 0
          then ok (false, storage, w)
          else (dma_move write dma offset length storage w >>= λ moved.
              ok (true, moved.0, moved.1)))
      else if count == 0 || ltb max_sgl_entries count || dma == 0
      then ok (false, storage, w)
      else sgl_loop count write dma offset length 0 0 storage w
