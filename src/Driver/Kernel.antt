-- ===== src/Driver/Kernel.antt =====
-- What driver/openflash asks of the Linux kernel while it comes up, recovers and goes away. The
-- kernel and the controller behind it are a strategy that answers each call from what was done so
-- far, so that every pattern of failures is one strategy.
use openflash_controller_lab.Base.{
  ℕ, zero, suc, Bool, Option, none, some, List, [], ◌∷◌, Outcome, ok, err,
}
use openflash_controller_lab.Abi.Struct.{Completion}
use openflash_controller_lab.Driver.State.{DriverQueue, Event}

-- What has to be given back: coherent memory by size and handle, an interrupt by its vector, the
-- vectors, bus mastering, the tag set, the disk, and its place in the system.
pub data Resource : Type 0 where
  dma : ℕ → ℕ → Resource
  irq : ℕ → Resource
  vectors master tag_set disk disk_added : Resource

pub data Call : Type 0 where
  acquire release : Resource → Call
  did : Event → Call

-- Calls that answer 0 or an error; and `readl` and `readq`, which answer a value. `get_memory` stands
-- for `devm_kcalloc` and `devm_kzalloc`, where an error is NULL.
pub data Ask : Type 0 where
  get_memory enable_device set_dma_mask map_regions ready : Ask
  get : Resource → Ask
  read : ℕ → Ask

-- One interrupt of vector 0: what the status register and the completion ring then hold.
pub record Interrupt : Type 0 where
  pub status : ℕ
  pub cqes : ℕ → Completion

-- `indeterminate` is what an `int` holds that nothing was assigned to.
pub record Kernel : Type 0 where
  pub answer : Ask → List Call → ℕ
  pub dma_alloc : ℕ → List Call → Option ℕ
  -- The interrupts that arrive while the driver waits: for an admin command, and, with the rings
  -- that vector 1's handler sees, for requests.
  pub interrupts : List Call → List Interrupt
  pub io_interrupts : List Call → List (ℕ → Completion)
  -- Whether a wait for the outstanding requests ends, with the slots as the interrupts left them.
  pub drained : List Call → DriverQueue → Bool
  pub indeterminate : ℕ

-- `struct gendisk` and its limits, as far as the driver sets them.
pub record Gendisk : Type 0 where
  pub tags : ℕ
  pub block_size : ℕ
  pub max_hw_sectors : ℕ
  pub max_segments : ℕ
  pub write_cache : Bool
  pub fua : Bool
  pub sectors : ℕ

-- `struct openflash_dev`. The pointer `queues` is `has_queues` and the array of two behind it.
pub record Dev : Type 0 where
  pub has_queues : Bool
  pub admin : DriverQueue
  pub io : DriverQueue
  pub nr_queues : ℕ
  pub queue_depth : ℕ
  pub capacity_blocks : ℕ
  pub capabilities : ℕ
  pub gendisk : Option Gendisk
  pub reset_pending : Bool

-- The driver's state, and what it has done, the newest first.
pub record Sys : Type 0 where
  pub dev : Dev
  pub log : List Call

abbrev pub Action : Type 0 → Type 0
Action A = Sys → Outcome (A × Sys)

abbrev pub pure : {A : Type 0} → A → Action A
pure a s = ok (a, s)

abbrev pub follow : {A B : Type 0} → (A → Action B) → Outcome (A × Sys) → Outcome (B × Sys)
follow f (ok (a, s)) = f a s
follow f (err e) = err e

infixl 5 ◌>>=◌ ◌>>◌
abbrev pub ◌>>=◌ : {A B : Type 0} → Action A → (A → Action B) → Action B
◌>>=◌ m f s = follow f (m s)

abbrev pub ◌>>◌ : {B : Type 0} → Action (Unit {0}) → Action B → Action B
m >> k = m >>= λ _. k

abbrev pub get_dev : Action Dev
get_dev s = ok (s.dev, s)

abbrev pub modify : (Dev → Dev) → Action (Unit {0})
modify f s = ok (tt, record s { dev = f s.dev })

abbrev pub note : Call → Action (Unit {0})
note c s = ok (tt, record s { log = c ∷ s.log })

abbrev pub noted : List Event → List Call → List Call
noted [] log = log
noted (e ∷ es) log = noted es (did e ∷ log)

abbrev pub note_all : List Event → Action (Unit {0})
note_all es s = ok (tt, record s { log = noted es s.log })

abbrev pub write_to : ℕ → ℕ → Action (Unit {0})
write_to register value = note (did (Event.write_register register value))

abbrev pub free : Resource → Action (Unit {0})
free r = note (release r)

abbrev pub acquired : Resource → ℕ → Action ℕ
acquired r zero s = ok (0, record s { log = acquire r ∷ s.log })
acquired r (suc e) s = ok (suc e, s)

abbrev pub allocated : ℕ → Option ℕ → Action (Option ℕ)
allocated size none s = ok (none, s)
allocated size (some handle) s =
    ok (some handle, record s { log = acquire (dma size handle) ∷ s.log })

module _ (k : Kernel) where
  abbrev pub ask : Ask → Action ℕ
  ask a s = ok (k.answer a s.log, s)

  abbrev pub read_from : ℕ → Action ℕ
  read_from register s = ok (
    k.answer (read register) s.log,
    record s { log = did (Event.read_register register) ∷ s.log },
  )

  -- A call that answers 0 and gives something, or answers an error.
  abbrev pub obtain : Resource → Action ℕ
  obtain r s = acquired r (k.answer (get r) s.log) s

  -- `dma_alloc_coherent`
  abbrev pub alloc : ℕ → Action (Option ℕ)
  alloc size s = allocated size (k.dma_alloc size s.log) s
