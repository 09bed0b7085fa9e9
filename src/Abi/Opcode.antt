-- ===== src/Abi/Opcode.antt =====
-- `enum openflash_opcode`.
use openflash_controller_lab.Base.{ℕ}

abbrev pub read : ℕ
read = 0x01

abbrev pub write : ℕ
write = 0x02

abbrev pub flush : ℕ
flush = 0x03

abbrev pub discard : ℕ
discard = 0x04

abbrev pub identify : ℕ
identify = 0x80

abbrev pub create_ioq : ℕ
create_ioq = 0x81
