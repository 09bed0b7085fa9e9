-- ===== src/Device/Bounds.antt =====
-- The transfers stay inside the storage that `openflash_realize` allocated.
use openflash_controller_lab.Base.{
  ℕ, zero, suc, ◌+◌, ◌%◌, ◌≤◌, ◌<◌, ◌≡◌, refl, inl, inr, Bool, true, false, List, arith, length,
  take, drop, ltb, ◌==◌, ◌||◌, u16, u64, Outcome, ok, Bool-cases,
}
use openflash_controller_lab.Base.Splice.{splice, length-splice}
use openflash_controller_lab.Abi.Struct.{Command, SglDesc, has_sgl}
use openflash_controller_lab.Platform.{Host, IsLawful}
use openflash_controller_lab.Device.Transfer.{
  store_bytes, load_bytes, dma_move, rejects_segment, read_desc, sgl_loop, transfer,
}

pub store_bytes-eq-ok :
    (st : List ℕ) (pos : ℕ) (bs : List ℕ)
    → pos + length bs ≤ length st
    → store_bytes st pos bs ≡ ok (splice st pos bs)
unfolding store_bytes
store_bytes-eq-ok st pos bs h = ground arith

pub load_bytes-eq-ok :
    (st : List ℕ) (pos n : ℕ)
    → pos + n ≤ length st
    → load_bytes st pos n ≡ ok (take n (drop pos st))
unfolding load_bytes
load_bytes-eq-ok st pos n h = ground arith

module _ (H : Host) (L : IsLawful H) where
  -- A move ends without a fault and leaves the storage as long as it was.
  abbrev pub Moves : List ℕ → Outcome (List ℕ × H.World) → Type 0
  Moves st r = (st' : List ℕ) × (w' : H.World) × (r ≡ ok (st', w')) × (length st' ≡ length st)

  pub dma_move-Moves :
      (write : Bool) (dma pos n : ℕ) (st : List ℕ) (w : H.World)
      → pos + n ≤ length st
      → Moves st (dma_move H write dma pos n st w)
  unfolding dma_move
  dma_move-Moves true dma pos n st w h =
      let bs = H.dma_read w dma n in
      let fits : pos + length bs ≤ length st = omega (arith, L.length-dma_read w dma n) in
      (splice st pos bs, w, rw (store_bytes-eq-ok st pos bs fits), length-splice st pos bs fits)
  dma_move-Moves false dma pos n st w h =
      (st, H.dma_write w dma (take n (drop pos st)), rw (load_bytes-eq-ok st pos n h), refl)

  abbrev pub Transfers : List ℕ → Outcome (Bool × List ℕ × H.World) → Type 0
  Transfers st r =
      (done : Bool) × (st' : List ℕ) × (w' : H.World) × (r ≡ ok (done, st', w'))
      × (length st' ≡ length st)

  -- A segment that is not rejected ends within the command's range.
  pub segment_in :
      (desc : SglDesc) (total transferred : ℕ)
      → transferred ≤ total
      → total < u64
      → rejects_segment H desc total transferred ≡ false
      → transferred + desc.length ≤ total
  unfolding rejects_segment
  segment_in desc total transferred h fits e = ground arith

  sgl_loop-Transfers :
      (rounds : ℕ) (write : Bool) (dma offset total index transferred : ℕ) (st : List ℕ)
      (w : H.World)
      → transferred ≤ total
      → total < u64
      → offset + total ≤ length st
      → Transfers st (sgl_loop H rounds write dma offset total index transferred st w)
  unfolding sgl_loop
  sgl_loop-Transfers zero write dma offset total index transferred st w h fits room =
      (_, st, w, refl, refl)
  sgl_loop-Transfers (suc rounds) write dma offset total index transferred st w h fits room =
      elim (Bool-cases (rejects_segment H (read_desc H w dma index) total transferred)) [
        | inl bad ↦ (false, st, w, rw bad, refl)
        | inr good ↦
            let desc = read_desc H w dma index in
            let within = segment_in desc total transferred h fits good in
            let (st1, w1, e, l) =
              dma_move-Moves write desc.addr (offset + transferred) desc.length st w
                (omega arith) in
            let next : (transferred + desc.length) % u64 ≤ total = omega arith in
            let (done, st2, w2, e2, l2) =
              sgl_loop-Transfers rounds write dma offset total (index + 1)
                ((transferred + desc.length) % u64) st1 w1 next fits (omega arith) in
            (done, st2, w2, rw (good, e) e2, omega arith)
      ]

  -- A transfer whose range lies in the storage never faults, whatever the guest's list says.
  pub transfer-Transfers :
      (st : List ℕ) (w : H.World) (cmd : Command) (offset total : ℕ) (write : Bool)
      → total < u64
      → offset + total ≤ length st
      → Transfers st (transfer H st w cmd offset total write)
  unfolding transfer
  transfer-Transfers st w cmd offset total write fits room = elim (Bool-cases (has_sgl cmd)) [
    | inl listed ↦
        elim (Bool-cases
          (cmd.control % u16 == 0 || ltb 16 (cmd.control % u16) || cmd.data_addr == 0)) [
            | inl bad ↦ (false, st, w, rw (listed, bad), refl)
            | inr good ↦
                let (done, st', w', e, l) =
                  sgl_loop-Transfers (cmd.control % u16) write cmd.data_addr offset total 0 0 st w
                    (omega arith) fits room in
                (done, st', w', rw (listed, good) e, l)
          ]
    | inr flat ↦ elim (Bool-cases (cmd.data_addr == 0)) [
      | inl null ↦ (false, st, w, rw (flat, null), refl)
      | inr there ↦
          let (st', w', e, l) = dma_move-Moves write cmd.data_addr offset total st w room in
          (true, st', w', rw (flat, there, e), l)
    ]
  ]
