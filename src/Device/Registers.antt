-- ===== src/Device/Registers.antt =====
-- The BAR0 registers: what the host writes is what the controller uses, and every access keeps the
-- controller well formed.
use openflash_controller_lab.Base.{
  ℕ, ◌+◌, ◌-◌, ◌*◌, ◌/◌, ◌%◌, ◌≤◌, ◌<◌, ◌≡◌, ◌≢◌, ◌⊎◌, refl, inl, inr, arith, ltb, leb, ◌==◌, ◌&&◌,
  u16, u32, u64, Outcome, ok, Bool-cases, ◌>>=◌,
}
use openflash_controller_lab.Base.Bits.{bit_or-high_low, bit_or-low_high}
use openflash_controller_lab.Abi.Reg
use openflash_controller_lab.Platform.{Host, IsLawful}
use openflash_controller_lab.Device.State.{State, Queue, reset}
use openflash_controller_lab.Device.Mmio.{
  mmio_read, mmio_write, write_control, write_qsize, write_doorbell, set_low, set_high, set_cq_head,
}
use openflash_controller_lab.Device.Invariant.{QueueIsValid, IsValid}
use openflash_controller_lab.Device.Drained.{NoCreate}
use openflash_controller_lab.Device.Progress.{process_sq-admin, process_sq-io}

set_low_lem : (a v : ℕ) → v < u32 → set_low a v ≡ (a / u32) * u32 + v
set_low_lem a v h = bit_or-high_low 32 (a / u32) v h

set_high_lem : (a v : ℕ) → v < u32 → set_high a v ≡ v * u32 + a % u32
set_high_lem a v h =
    let e : (v * u32) % u64 ≡ v * u32 = omega arith in
    rw e (bit_or-low_high 32 v (a % u32) (omega arith))

address_lem : (a lo hi : ℕ) → lo < u32 → hi < u32 → set_high (set_low a lo) hi ≡ hi * u32 + lo
address_lem a lo hi l h =
    rw (set_low_lem a lo l, set_high_lem ((a / u32) * u32 + lo) hi h) (omega arith)

module _ (H : Host) (fuel : ℕ) where
  -- The halves of the submission ring's address, written in this order, make up the address that the
  -- controller uses, and both registers read back what was written.
  pub sq_address :
      (s : State) (w : H.World) (lo hi : ℕ)
      → lo < u32
      → hi < u32
      → (s' : State) × ((mmio_write H fuel s w Reg.admin_sq_lo lo >>= λ r.
            mmio_write H fuel r.0 r.1 Reg.admin_sq_hi hi)
          ≡ ok (s', w))
        × (s'.admin.sq_addr ≡ hi * u32 + lo)
        × (mmio_read s' Reg.admin_sq_lo ≡ lo)
        × (mmio_read s' Reg.admin_sq_hi ≡ hi)
  unfolding mmio_write mmio_read
  sq_address s w lo hi l h =
      let v = address_lem s.admin.sq_addr lo hi l h in
      (
        record s { admin = record s.admin { sq_addr = set_high (set_low s.admin.sq_addr lo) hi } },
        refl,
        v,
        omega (arith, v),
        omega (arith, v),
      )

  reset-IsValid : (s : State) → IsValid s → IsValid (reset s)
  unfolding reset
  reset-IsValid s v = ground arith

  write_control-IsValid : (s : State) (value : ℕ) → IsValid s → IsValid (write_control s value)
  unfolding write_control
  write_control-IsValid s value v = ground (arith, reset-IsValid s v)

  write_qsize-IsValid : (s : State) (value : ℕ) → IsValid s → IsValid (write_qsize s value)
  unfolding write_qsize
  write_qsize-IsValid s value v = ground arith

  set_cq_head-IsValid : (s : State) (qid value : ℕ) → IsValid s → IsValid (set_cq_head s qid value)
  set_cq_head-IsValid s qid value v = ground arith

module _ (H : Host) (L : IsLawful H) (fuel : ℕ) where
  -- The register that rings the I/O queue's submission doorbell.
  abbrev pub io_doorbell : ℕ
  io_doorbell = 0x1008

  abbrev pub Returns : Outcome (State × H.World) → Type 0
  Returns r = (s' : State) × (w' : H.World) × (r ≡ ok (s', w')) × IsValid s'

  with_sq_addr :
      (q : Queue) (x : ℕ) → QueueIsValid q → x < u64 → QueueIsValid (record q { sq_addr = x })
  with_sq_addr q x v h = ground arith

  with_cq_addr :
      (q : Queue) (x : ℕ) → QueueIsValid q → x < u64 → QueueIsValid (record q { cq_addr = x })
  with_cq_addr q x v h = ground arith

  set_low-lt : (a v : ℕ) → a < u64 → v < u32 → set_low a v < u64
  set_low-lt a v h k = rw (set_low_lem a v k) (omega arith)

  set_high-lt : (a v : ℕ) → v < u32 → set_high a v < u64
  set_high-lt a v h = rw (set_high_lem a v h) (omega arith)

  set_address-IsValid :
      (s : State) (q : Queue) → IsValid s → QueueIsValid q → IsValid (record s { admin = q })
  set_address-IsValid s q v k = ground arith

  write_doorbell-Returns :
      (s : State) (w : H.World) (addr value : ℕ)
      → IsValid s
      → 4098 ≤ fuel
      → (addr ≢ io_doorbell) ⊎ NoCreate H L fuel 1 (value % u16) s w
      → Returns (write_doorbell H fuel s w addr value)
  unfolding write_doorbell
  write_doorbell-Returns s w addr value v f k =
      elim (Bool-cases (leb 0x1000 addr && ltb addr 0x1010)) [
        | inr out ↦ (s, w, rw out, v)
        | inl bell ↦ elim (Bool-cases ((addr - 0x1000) % 8 == 0)) [
          | inr cq ↦ (
            set_cq_head s ((addr - 0x1000) / 8) value,
            w,
            rw (bell, cq),
            set_cq_head-IsValid H fuel s ((addr - 0x1000) / 8) value v,
          )
          | inl sq ↦ elim (Bool-cases (addr == 0x1000)) [
            | inl admin ↦
                let q : (addr - 0x1000) / 8 ≡ 0 = ground arith in
                let r = process_sq-admin H L fuel (value % u16) s w v f in
                (r.state, r.world, rw (bell, sq, q) r.returned, r.valid)
            | inr other ↦
                let at : addr ≡ io_doorbell = ground arith in
                let q : (addr - 0x1000) / 8 ≡ 1 = omega (arith, at) in
                elim k [
                  | inl n ↦ absurd (n at)
                  | inr free ↦
                      let r = process_sq-io H L fuel (value % u16) s w v f free in
                      (r.state, r.world, rw (bell, sq, q) r.returned, r.valid)
                ]
          ]
        ]
      ]

  -- Any 32-bit access to any register of BAR0 returns and leaves a well-formed controller, if, where
  -- it rings the I/O queue's doorbell, none of the commands that the loop takes is a CREATE_IOQ.
  pub mmio_write-Returns :
      (s : State) (w : H.World) (addr value : ℕ)
      → value < u32
      → IsValid s
      → 4098 ≤ fuel
      → (addr ≢ io_doorbell) ⊎ NoCreate H L fuel 1 (value % u16) s w
      → Returns (mmio_write H fuel s w addr value)
  unfolding mmio_write
  mmio_write-Returns s w addr value small v f k =
      let a = v.admin_valid in
      elim (Bool-cases (addr == Reg.control)) [
        | inl c ↦ (write_control s value, w, rw c, write_control-IsValid H fuel s value v)
        | inr n0 ↦ elim (Bool-cases (addr == Reg.admin_sq_lo)) [
          | inl c ↦ (
            _,
            w,
            rw (n0, c),
            set_address-IsValid s _ v
                (with_sq_addr s.admin _ a (set_low-lt s.admin.sq_addr value a.sq_addr_fits small)),
          )
          | inr n1 ↦ elim (Bool-cases (addr == Reg.admin_sq_hi)) [
            | inl c ↦ (
              _,
              w,
              rw (n0, n1, c),
              set_address-IsValid s _ v
                  (with_sq_addr s.admin _ a (set_high-lt s.admin.sq_addr value small)),
            )
            | inr n2 ↦ elim (Bool-cases (addr == Reg.admin_cq_lo)) [
              | inl c ↦ (
                _,
                w,
                rw (n0, n1, n2, c),
                set_address-IsValid s _ v (
                    with_cq_addr s.admin _ a
                      (set_low-lt s.admin.cq_addr value a.cq_addr_fits small)),
              )
              | inr n3 ↦ elim (Bool-cases (addr == Reg.admin_cq_hi)) [
                | inl c ↦ (
                  _,
                  w,
                  rw (n0, n1, n2, n3, c),
                  set_address-IsValid s _ v
                      (with_cq_addr s.admin _ a (set_high-lt s.admin.cq_addr value small)),
                )
                | inr n4 ↦ elim (Bool-cases (addr == Reg.admin_qsize)) [
                  | inl c ↦ (
                    write_qsize s value,
                    w,
                    rw (n0, n1, n2, n3, n4, c),
                    write_qsize-IsValid H fuel s value v,
                  )
                  | inr n5 ↦
                      rw (n0, n1, n2, n3, n4, n5) (write_doorbell-Returns s w addr value v f k)
                ]
              ]
            ]
          ]
        ]
      ]
