-- ===== src/Driver/Errno.antt =====
-- The error numbers of Linux that driver/openflash returns, without their sign.
use openflash_controller_lab.Base.{ℕ}

abbrev pub eio : ℕ
eio = 5

abbrev pub enomem : ℕ
enomem = 12

abbrev pub enodev : ℕ
enodev = 19

abbrev pub eproto : ℕ
eproto = 71

abbrev pub etimedout : ℕ
etimedout = 110
