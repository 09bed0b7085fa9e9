-- ===== src/Abi.antt =====
-- driver/openflash/openflash_abi.h, and its copy at the head of qemu/hw/block/openflash.c: the
-- registers, codes and fixed-size structures that the host and the controller share.
pub mod Reg
pub mod Opcode
pub mod StatusCode
pub mod Struct
pub mod Layout
