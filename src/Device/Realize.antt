-- ===== src/Device/Realize.antt =====
-- `openflash_realize`: the device as it starts, with the contents of its backing file.
use Prim.Native.String.{String}
use openflash_controller_lab.Base.{
  ℕ, ◌%◌, Bool, not, ◌||◌, Option, none, some, List, [], length, replicate, ltb, ◌==◌,
  if◌then◌else◌,
}
use openflash_controller_lab.Platform.{Host}
use openflash_controller_lab.Device.State.{State, block_size, zero_queue, reset}

-- Why `openflash_realize` reports an error.
pub data RealizeError : Type 0 where
  bad_capacity cannot_load wrong_length no_msix : RealizeError

pub data Realized : Type 0 where
  ready : State → Realized
  failed : RealizeError → Realized

-- The object as the properties leave it: all zero but for the two properties.
abbrev pub blank : ℕ → Option String → State
blank capacity backing_file = record {
  admin = zero_queue;
  io = zero_queue;
  control = 0;
  status = 0;
  capacity = capacity;
  storage = [];
  backing_file = backing_file;
}

-- The end of `openflash_realize`. Whether `msix_init_exclusive_bar` fails is the platform's.
abbrev pub start : Bool → State → List ℕ → Realized
start msix_fails s storage =
    if msix_fails then failed no_msix else ready (reset (record s { storage = storage }))

module _ (H : Host) where
  -- `memcpy(s->storage, contents, s->capacity)`, of a file of exactly that length.
  abbrev pub load_contents : Bool → State → Option (List ℕ) → Realized
  load_contents msix_fails s none = failed cannot_load
  load_contents msix_fails s (some contents) =
      if length contents == s.capacity then start msix_fails s contents else failed wrong_length

  abbrev pub load_backing : Bool → State → H.World → Option String → Realized
  load_backing msix_fails s w none = start msix_fails s (replicate s.capacity 0)
  load_backing msix_fails s w (some file) =
      if H.file_exists w file
      then load_contents msix_fails s (H.file_get_contents w file)
      else start msix_fails s (replicate s.capacity 0)

  unfoldable pub realize : Bool → State → H.World → Realized
  realize msix_fails s w =
      if ltb s.capacity block_size || not (s.capacity % block_size == 0)
      then failed bad_capacity
      else load_backing msix_fails s w s.backing_file
