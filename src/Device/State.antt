-- ===== src/Device/State.antt =====
-- `OpenFlashQueue`, `OpenFlashState` and `openflash_reset`.
use Prim.Native.String.{String}
use openflash_controller_lab.Base.{ℕ, Bool, false, Option, List, ◌==◌, if◌then◌else◌}

abbrev pub block_size : ℕ
block_size = 4096

abbrev pub max_queues : ℕ
max_queues = 2

pub record Queue : Type 0 where
  pub sq_addr : ℕ
  pub cq_addr : ℕ
  pub depth : ℕ
  pub sq_head : ℕ
  pub cq_tail : ℕ
  pub cq_head : ℕ
  pub vector : ℕ
  pub cq_phase : ℕ
  pub enabled : Bool

-- `queues[OF_MAX_QUEUES]` is the two fields `admin` (index 0) and `io` (index 1); `storage` is
-- the bytes of the allocation, none before `openflash_realize`; the PCI parts are the platform's.
pub record State : Type 0 where
  pub admin : Queue
  pub io : Queue
  pub control : ℕ
  pub status : ℕ
  pub capacity : ℕ
  pub storage : List ℕ
  pub backing_file : Option String

-- `s->queues[qid]`, for an index below OF_MAX_QUEUES.
abbrev pub get_queue : State → ℕ → Queue
get_queue s qid = if qid == 0 then s.admin else s.io

abbrev pub set_queue : State → ℕ → Queue → State
set_queue s qid q = if qid == 0 then record s { admin = q } else record s { io = q }

abbrev pub zero_queue : Queue
zero_queue = record {
  sq_addr = 0;
  cq_addr = 0;
  depth = 0;
  sq_head = 0;
  cq_tail = 0;
  cq_head = 0;
  vector = 0;
  cq_phase = 0;
  enabled = false;
}

unfoldable pub reset : State → State
reset s = record s {
  admin = record zero_queue { cq_phase = 1; vector = 0 };
  io = zero_queue;
  control = 0;
  status = 0;
}
