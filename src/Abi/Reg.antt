-- ===== src/Abi/Reg.antt =====
-- The BAR0 registers: OPENFLASH_REG_* of openflash_abi.h, OF_REG_* of openflash.c.
use openflash_controller_lab.Base.{ℕ}

abbrev pub abi_version : ℕ
abi_version = 0x0000

abbrev pub capabilities : ℕ
capabilities = 0x0008

abbrev pub control : ℕ
control = 0x0010

abbrev pub status : ℕ
status = 0x0014

abbrev pub admin_sq_lo : ℕ
admin_sq_lo = 0x0020

abbrev pub admin_sq_hi : ℕ
admin_sq_hi = 0x0024

abbrev pub admin_cq_lo : ℕ
admin_cq_lo = 0x0028

abbrev pub admin_cq_hi : ℕ
admin_cq_hi = 0x002c

abbrev pub admin_qsize : ℕ
admin_qsize = 0x0030

abbrev pub doorbell_base : ℕ
doorbell_base = 0x1000
