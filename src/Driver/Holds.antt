-- ===== src/Driver/Holds.antt =====
-- What the driver holds of the kernel's resources, by its calls.
use openflash_controller_lab.Base.{List, [], ◌∷◌, ◌++◌, ◌≡◌, refl}
use openflash_controller_lab.Driver.State.{Request, DriverQueue, Event}
use openflash_controller_lab.Driver.Kernel.{
  Resource, dma, irq, vectors, Call, acquire, release, did, noted,
}
use openflash_controller_lab.Driver.Setup.{sq_size, cq_size, list_size}

-- The calls, the newest first, against what is held after them, in any order.
pub data Holds : List Call → List Resource → Type 0 where
  start : Holds [] []
  take :
      {log : List Call} {xs xs' : List Resource} (r : Resource) (ys zs : List Resource)
      → Holds log xs
      → xs ≡ ys ++ zs
      → xs' ≡ ys ++ (r ∷ zs)
      → Holds (acquire r ∷ log) xs'
  give :
      {log : List Call} {xs xs' : List Resource} (r : Resource) (ys zs : List Resource)
      → Holds log xs
      → xs ≡ ys ++ (r ∷ zs)
      → xs' ≡ ys ++ zs
      → Holds (release r ∷ log) xs'
  other : {log : List Call} {xs : List Resource} (e : Event) → Holds log xs → Holds (did e ∷ log) xs

-- The calls of one time, and those of a later one.
pub data Since : List Call → List Call → Type 0 where
  now : {log : List Call} → Since log log
  later : {old log : List Call} (c : Call) → Since old log → Since old (c ∷ log)

pub Since-older : {old log : List Call} (c : Call) → Since (c ∷ old) log → Since old log
Since-older c now = later c now
Since-older c (later d h) = later d (Since-older c h)

pub Since-trans : {a b c : List Call} → Since a b → Since b c → Since a c
Since-trans h now = h
Since-trans h (later d g) = later d (Since-trans h g)

pub taken :
    {log : List Call} {xs : List Resource} (r : Resource)
    → Holds log xs
    → Holds (acquire r ∷ log) (r ∷ xs)
taken {xs} r h = take r [] xs h refl refl

pub given :
    {log : List Call} {xs : List Resource} (r : Resource)
    → Holds log (r ∷ xs)
    → Holds (release r ∷ log) xs
given {xs} r h = give r [] xs h refl refl

pub noted-Holds :
    (es : List Event) {log : List Call} {xs : List Resource}
    → Holds log xs
    → Holds (noted es log) xs
noted-Holds [] h = h
noted-Holds (e ∷ es) h = noted-Holds es (other e h)

-- What a queue that is set up holds, and the device with it.
abbrev pub lists : List Request → List Resource
lists [] = []
lists (request ∷ requests) = dma list_size request.sgl_dma ∷ lists requests

abbrev pub io_owned : DriverQueue → List Resource
io_owned q =
    irq 1 ∷ (lists q.requests ++ (dma (cq_size q) q.cq_dma ∷ dma (sq_size q) q.sq_dma ∷ []))

abbrev pub admin_owned : DriverQueue → List Resource
admin_owned q = irq 0 ∷ vectors ∷ dma (cq_size q) q.cq_dma ∷ dma (sq_size q) q.sq_dma ∷ []
