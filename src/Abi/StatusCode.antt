-- ===== src/Abi/StatusCode.antt =====
-- `enum openflash_status_code`.
use openflash_controller_lab.Base.{ℕ}

abbrev pub success : ℕ
success = 0

abbrev pub invalid_opcode : ℕ
invalid_opcode = 1

abbrev pub invalid_field : ℕ
invalid_field = 2

abbrev pub lba_range : ℕ
lba_range = 3

abbrev pub media_error : ℕ
media_error = 4

abbrev pub ecc_uncorrectable : ℕ
ecc_uncorrectable = 5

abbrev pub aborted : ℕ
aborted = 6

abbrev pub internal : ℕ
internal = 7
