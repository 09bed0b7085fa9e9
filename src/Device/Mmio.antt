-- ===== src/Device/Mmio.antt =====
-- `openflash_mmio_read` and `openflash_mmio_write`, the BAR0 registers.
use openflash_controller_lab.Base.{
  ℕ, ◌+◌, ◌-◌, ◌*◌, ◌/◌, ◌%◌, not, ◌&&◌, ltb, leb, ◌==◌, if◌then◌else◌, bit_or, test_bit, u16, u32,
  u64, Outcome, ok,
}
use openflash_controller_lab.Abi.Reg
use openflash_controller_lab.Platform.{Host}
use openflash_controller_lab.Device.State.{State, max_queues, get_queue, set_queue, reset}
use openflash_controller_lab.Device.Doorbell.{process_sq}

abbrev pub abi_version : ℕ
abi_version = 0x00000002

-- FLUSH, FUA, DISCARD and FAULT_INJECTION: bits 0, 1, 2 and 4.
abbrev pub capabilities : ℕ
capabilities = 0x17

unfoldable pub mmio_read : State → ℕ → ℕ
mmio_read s addr =
    if addr == Reg.abi_version
    then abi_version
    else if addr == Reg.capabilities
    then capabilities
    else if addr == Reg.control
    then s.control
    else if addr == Reg.status
    then s.status
    else if addr == Reg.admin_sq_lo
    then s.admin.sq_addr % u32
    else if addr == Reg.admin_sq_hi
    then s.admin.sq_addr / u32
    else if addr == Reg.admin_cq_lo
    then s.admin.cq_addr % u32
    else if addr == Reg.admin_cq_hi
    then s.admin.cq_addr / u32
    else if addr == Reg.admin_qsize
    then s.admin.depth
    else 0

-- OF_REG_CONTROL. The two registers are 32 bits wide.
unfoldable pub write_control : State → ℕ → State
write_control s value =
    if test_bit value 1
    then reset s
    else record s { control = value % u32; status = if test_bit value 0 then 1 else 0 }

-- `(addr & ~0xffffffffULL) | value`
abbrev pub set_low : ℕ → ℕ → ℕ
set_low addr value = bit_or ((addr / u32) * u32) value

-- `(addr & 0xffffffffULL) | (value << 32)`
abbrev pub set_high : ℕ → ℕ → ℕ
set_high addr value = bit_or (addr % u32) ((value * u32) % u64)

-- OF_REG_ADMIN_QSIZE.
unfoldable pub write_qsize : State → ℕ → State
write_qsize s value =
    let depth = (if leb 2 value && leb value 4096 then value else 0) in
    record s { admin = record s.admin { depth = depth; enabled = not (depth == 0) } }

abbrev pub set_cq_head : State → ℕ → ℕ → State
set_cq_head s qid value =
    if ltb value (get_queue s qid).depth
    then set_queue s qid (record (get_queue s qid) { cq_head = value % u16 })
    else s

module _ (H : Host) (fuel : ℕ) where
  -- The `default` case: a doorbell, or a bad address, which is logged and changes nothing.
  unfoldable pub write_doorbell : State → H.World → ℕ → ℕ → Outcome (State × H.World)
  write_doorbell s w addr value =
      let qid = (addr - Reg.doorbell_base) / 8 in
      if leb Reg.doorbell_base addr && ltb addr (Reg.doorbell_base + max_queues * 8)
      then (if (addr - Reg.doorbell_base) % 8 == 0
          then process_sq H fuel qid (value % u16) s w
          else ok (set_cq_head s qid value, w))
      else ok (s, w)

  unfoldable pub mmio_write : State → H.World → ℕ → ℕ → Outcome (State × H.World)
  mmio_write s w addr value =
      if addr == Reg.control
      then ok (write_control s value, w)
      else if addr == Reg.admin_sq_lo
      then ok (record s { admin = record s.admin { sq_addr = set_low s.admin.sq_addr value } }, w)
      else if addr == Reg.admin_sq_hi
      then ok (record s { admin = record s.admin { sq_addr = set_high s.admin.sq_addr value } }, w)
      else if addr == Reg.admin_cq_lo
      then ok (record s { admin = record s.admin { cq_addr = set_low s.admin.cq_addr value } }, w)
      else if addr == Reg.admin_cq_hi
      then ok (record s { admin = record s.admin { cq_addr = set_high s.admin.cq_addr value } }, w)
      else if addr == Reg.admin_qsize
      then ok (write_qsize s value, w)
      else write_doorbell s w addr value
