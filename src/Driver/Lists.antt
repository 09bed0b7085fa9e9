-- ===== src/Driver/Lists.antt =====
-- driver/openflash/openflash_queue.c: the loops that give the slots' lists back, in both directions.
use openflash_controller_lab.Base.{
  Outcome, Succeeds-weaken, ℕ, zero, suc, ◌+◌, ◌≤◌, ◌≡◌, refl, subst, arith, some, List, [], ◌∷◌,
  ◌++◌, append_assoc, get_elem?, length, take, drop, ok, Succeeds,
}
use openflash_controller_lab.Base.Take.{take-suc, get_elem-exists, drop-get_elem, drop-all}
use openflash_controller_lab.Driver.State.{Request}
use openflash_controller_lab.Driver.Kernel.{Resource, dma, release, Sys}
use openflash_controller_lab.Driver.Holds.{Since, now, Since-older, Holds, lists}
use openflash_controller_lab.Driver.Setup.{list_size}
use openflash_controller_lab.Driver.IoSetup.{free_list, free_lists_down, free_lists_up}

pub lists-append : (xs ys : List Request) → lists (xs ++ ys) ≡ lists xs ++ lists ys
lists-append [] ys = refl
lists-append (x ∷ xs) ys = rw (lists-append xs ys) refl

-- Giving lists back leaves the device alone, and adds to the calls.
abbrev pub Freed : Sys → List Resource → Unit {0} × Sys → Type 0
Freed s zs r = Holds r.1.log zs × (r.1.dev ≡ s.dev) × Since s.log r.1.log

free_list_lem :
    (tag : ℕ) (r : Request) (s : Sys)
    → get_elem? s.dev.io.requests tag ≡ some r
    → free_list tag s ≡ ok (tt, record s { log = release (dma list_size r.sgl_dma) ∷ s.log })
free_list_lem tag r s found = rw found refl

-- One list before the others.
one_more :
    (r : Request) (s : Sys) (zs : List Resource) (o : Outcome (Unit {0} × Sys))
    → Succeeds (Freed (record s { log = release (dma list_size r.sgl_dma) ∷ s.log }) zs) o
    → Succeeds (Freed s zs) o
one_more r s zs o h =
    Succeeds-weaken (Freed (record s { log = release (dma list_size r.sgl_dma) ∷ s.log }) zs)
      (Freed s zs) o h (λ t freed. (freed.0, freed.1, Since-older _ freed.2))

pub free_lists_down-Freed :
    (tag : ℕ) (s : Sys) (zs : List Resource)
    → tag ≤ length s.dev.io.requests
    → Holds s.log (lists (take tag s.dev.io.requests) ++ zs)
    → Succeeds (Freed s zs) (free_lists_down tag s)
unfolding free_lists_down
free_lists_down-Freed zero s zs low h = (h, refl, now)
free_lists_down-Freed (suc tag) s zs low h =
    let (r, found) = get_elem-exists s.dev.io.requests tag (omega arith) in
    let first = lists (take tag s.dev.io.requests) in
    let split : lists (take (suc tag) s.dev.io.requests) ++ zs
        ≡ first ++ (dma list_size r.sgl_dma ∷ zs) =
      rw (take-suc s.dev.io.requests tag found, lists-append (take tag s.dev.io.requests) (r ∷ []))
        (append_assoc first (dma list_size r.sgl_dma ∷ []) zs) in
    rw (free_list_lem tag r s found) (
      one_more r s zs
        (free_lists_down tag (record s { log = release (dma list_size r.sgl_dma) ∷ s.log }))
        (free_lists_down-Freed tag (record s { log = release (dma list_size r.sgl_dma) ∷ s.log }) zs
          (omega arith) (Holds.give (dma list_size r.sgl_dma) first zs h split refl)))

pub free_lists_up-Freed :
    (rounds tag : ℕ) (s : Sys) (zs : List Resource)
    → tag + rounds ≡ length s.dev.io.requests
    → Holds s.log (lists (drop tag s.dev.io.requests) ++ zs)
    → Succeeds (Freed s zs) (free_lists_up rounds tag s)
unfolding free_lists_up
free_lists_up-Freed zero tag s zs e h = (
  subst (λ (rs : List Request). Holds s.log (lists rs ++ zs))
      (drop-all s.dev.io.requests tag (omega arith)) h,
  refl,
  now,
)
free_lists_up-Freed (suc rounds) tag s zs e h =
    let (r, found) = get_elem-exists s.dev.io.requests tag (omega arith) in
    let rest = lists (drop (tag + 1) s.dev.io.requests) in
    let split : lists (drop tag s.dev.io.requests) ++ zs ≡ dma list_size r.sgl_dma ∷ (rest ++ zs) =
      rw (drop-get_elem s.dev.io.requests tag found) refl in
    rw (free_list_lem tag r s found) (
      one_more r s zs
        (free_lists_up rounds (tag + 1)
          (record s { log = release (dma list_size r.sgl_dma) ∷ s.log }))
        (free_lists_up-Freed rounds (tag + 1)
          (record s { log = release (dma list_size r.sgl_dma) ∷ s.log }) zs (omega arith)
          (Holds.give (dma list_size r.sgl_dma) [] (rest ++ zs) h split refl)))
