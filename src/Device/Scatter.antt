-- ===== src/Device/Scatter.antt =====
-- The scatter-gather path of openflash_transfer against one contiguous write.
use native.Mathlib.Nat.{add-zero}
use openflash_controller_lab.Base.{
  ℕ, zero, suc, ◌+◌, ◌-◌, ◌%◌, ◌≤◌, ◌<◌, ◌≡◌, ◌∙◌, inl, inr, Bool, true, false, List, [], ◌++◌,
  arith, length, length-append, take-append-drop, ltb, ◌==◌, ◌||◌, u16, u64, Outcome, ok,
  Bool-cases,
}
use openflash_controller_lab.Base.Splice.{splice, length-splice, splice-splice}
use openflash_controller_lab.Abi.Struct.{Command, has_sgl}
use openflash_controller_lab.Platform.{Host, IsLawful}
use openflash_controller_lab.Device.Transfer.{
  dma_move, rejects_segment, read_desc, sgl_loop, transfer,
}
use openflash_controller_lab.Device.Bounds.{store_bytes-eq-ok, segment_in}

module _ (H : Host) where
  -- The bytes that the list's next entries name, one after the other.
  unfoldable pub gather : ℕ → H.World → ℕ → ℕ → List ℕ
  gather zero w dma index = []
  gather (suc rounds) w dma index =
      let desc = read_desc H w dma index in
      H.dma_read w desc.addr desc.length ++ gather rounds w dma (index + 1)

module _ (H : Host) (L : IsLawful H) where
  record Gathers (st : List ℕ) (w : H.World) (pos left : ℕ) (bs st' : List ℕ) (w' : H.World)
      : Type 0 where
    same_world : w' ≡ w
    exact : length bs ≡ left
    stored : st' ≡ splice st pos bs

  splice-nil : (st : List ℕ) (pos : ℕ) → splice st pos [] ≡ st
  splice-nil st pos = rw add-zero (take-append-drop pos st)

  dma_move-write :
      (dma pos n : ℕ) (st : List ℕ) (w : H.World)
      → pos + length (H.dma_read w dma n) ≤ length st
      → dma_move H true dma pos n st w ≡ ok (splice st pos (H.dma_read w dma n), w)
  unfolding dma_move
  dma_move-write dma pos n st w h = rw (store_bytes-eq-ok st pos (H.dma_read w dma n) h)

  sgl_loop-gather :
      (rounds dma offset total index transferred : ℕ) (st st' : List ℕ) (w w' : H.World)
      → transferred ≤ total
      → total < u64
      → offset + total ≤ length st
      → sgl_loop H rounds true dma offset total index transferred st w ≡ ok (true, st', w')
      → Gathers st w
          (offset + transferred)
          (total - transferred)
          (gather H rounds w dma index)
          st'
          w'
  unfolding sgl_loop gather
  sgl_loop-gather zero dma offset total index transferred st st' w w' h fits room e =
      ground (arith, splice-nil st (offset + transferred))
  sgl_loop-gather (suc rounds) dma offset total index transferred st st' w w' h fits room e =
      elim (Bool-cases (rejects_segment H (read_desc H w dma index) total transferred)) [
        | inl bad ↦ absurd (no_end (rw bad at e))
        | inr good ↦
            let desc = read_desc H w dma index in
            let seg = H.dma_read w desc.addr desc.length in
            let within = segment_in H L desc total transferred h fits good in
            let size = L.length-dma_read w desc.addr desc.length in
            let sum : (transferred + desc.length) % u64 ≡ transferred + desc.length = omega arith in
            let room1 : offset + transferred + length seg ≤ length st = omega (arith, size) in
            let st1 = splice st (offset + transferred) seg in
            let same = length-splice st (offset + transferred) seg room1 in
            let e1 =
              rw (good, dma_move-write desc.addr (offset + transferred) desc.length st w room1, sum)
                at e in
            let ih =
              sgl_loop-gather rounds dma offset total (index + 1) (transferred + desc.length) st1
                st' w w' within fits (omega (arith, same)) e1 in
            let rest = gather H rounds w dma (index + 1) in
            let pos : offset + (transferred + desc.length) ≡ offset + transferred + length seg =
              omega (arith, size) in
            record {
              same_world = ih.same_world;
              exact = omega (arith, length-append seg rest, ih.exact, size);
              stored =
                  ih.stored
                  ∙ rw pos (
                      splice-splice st (offset + transferred) seg rest
                        (omega (arith, ih.exact, size)));
            }
      ]
    where
      no_end :
          ◌≡◌ {A = Outcome (Bool × List ℕ × H.World)} (ok (false, st, w)) (ok (true, st', w')) → ⊥
      no_end p = cc

  -- A scatter-gather write that the controller accepts has found at most 16 entries whose lengths add
  -- up to exactly the command's, and it has stored their bytes, one after the other, at the
  -- command's offset, and nothing else.
  pub transfer-gather :
      (st st' : List ℕ) (w w' : H.World) (cmd : Command) (offset total : ℕ)
      → has_sgl cmd ≡ true
      → total < u64
      → offset + total ≤ length st
      → transfer H st w cmd offset total true ≡ ok (true, st', w')
      → (cmd.control % u16 ≤ 16)
        × (length (gather H (cmd.control % u16) w cmd.data_addr 0) ≡ total)
        × (st' ≡ splice st offset (gather H (cmd.control % u16) w cmd.data_addr 0))
        × (w' ≡ w)
  unfolding transfer
  transfer-gather st st' w w' cmd offset total listed fits room e =
      let count = cmd.control % u16 in
      elim (Bool-cases (count == 0 || ltb 16 count || cmd.data_addr == 0)) [
        | inl bad ↦ absurd (no_end (rw (listed, bad) at e))
        | inr good ↦
            let few : count ≤ 16 = ground arith in
            let pos : offset + 0 ≡ offset = omega arith in
            let g =
              sgl_loop-gather count cmd.data_addr offset total 0 0 st st' w w' (omega arith) fits
                room (rw (listed, good) at e) in
            (few, omega (arith, g.exact), rw (← pos) g.stored, g.same_world)
      ]
    where
      no_end :
          ◌≡◌ {A = Outcome (Bool × List ℕ × H.World)} (ok (false, st, w)) (ok (true, st', w')) → ⊥
      no_end p = cc
