-- ===== src/Driver/Mapped.antt =====
-- driver/openflash/openflash_core.c and openflash_queue.c: the segments of a request are mapped one
-- by one into its list, and unmapped from the last one down.
use mathlib.Core.List.{map, reverse, map-append, reverse-append}
use openflash_controller_lab.Base.{
  ℕ, zero, suc, ◌+◌, ◌≤◌, ◌≡◌, ◌∙◌, refl, ap, true, Option, none, some, List, [], ◌∷◌, ◌++◌, ok,
  err, out_of_bounds, ◌>>=◌, get_elem?, set, length, take, length-set, get_elem?-set_self, arith,
  ltb, append_assoc, append-nil,
}
use openflash_controller_lab.Base.Take.{take-suc, take-set_self, get_elem-exists}
use openflash_controller_lab.Abi.Struct.{SglDesc}
use openflash_controller_lab.Driver.State.{Direction, Event, unmap}
use openflash_controller_lab.Driver.Completion.{unmap_all}
use openflash_controller_lab.Driver.Request.{map_segments}

-- One request to unmap for each descriptor, the last one first.
abbrev pub unmaps : Direction → List SglDesc → List Event
unmaps dir descs = reverse (map (λ (desc : SglDesc). unmap desc.addr desc.length dir) descs)

unmap_all-suc :
    (n : ℕ) (sgl : List SglDesc) (dir : Direction) (desc : SglDesc)
    → get_elem? sgl n ≡ some desc
    → unmap_all (suc n) sgl dir
      ≡ (unmap_all n sgl dir >>= λ rest. ok (unmap desc.addr desc.length dir ∷ rest))
unfolding unmap_all
unmap_all-suc n sgl dir desc found =
    ap
      (λ (o : Option SglDesc). elim o [
        | none ↦ err out_of_bounds
        | some desc' ↦ unmap_all n sgl dir >>= λ rest. ok (unmap desc'.addr desc'.length dir ∷ rest)
      ])
      found

pub unmap_all-returns :
    (n : ℕ) (sgl : List SglDesc) (dir : Direction)
    → n ≤ length sgl
    → unmap_all n sgl dir ≡ ok (unmaps dir (take n sgl))
unfolding unmap_all
unmap_all-returns zero sgl dir h = refl
unmap_all-returns (suc n) sgl dir h =
    let (desc, found) = get_elem-exists sgl n (omega arith) in
    let rest = unmap_all-returns n sgl dir (omega arith) in
    let event = λ (desc' : SglDesc). unmap desc'.addr desc'.length dir in
    rw
      (
        unmap_all-suc n sgl dir desc found,
        rest,
        take-suc sgl n found,
        map-append event (take n sgl) (desc ∷ []),
        reverse-append (map event (take n sgl)) (event desc ∷ []),
      )
      refl

-- Segments that all have an address, with it, and the descriptors they become.
abbrev pub mapped : List (ℕ × ℕ) → List (ℕ × Option ℕ)
mapped [] = []
mapped ((len, dma) ∷ segments) = (len, some dma) ∷ mapped segments

abbrev pub descriptors : List (ℕ × ℕ) → List SglDesc
descriptors [] = []
descriptors ((len, dma) ∷ segments) =
    record { addr = dma; length = len; reserved = 0 } ∷ descriptors segments

-- The list after the segments are stored from entry `n` on.
abbrev pub stored : List (ℕ × ℕ) → ℕ → List SglDesc → List SglDesc
stored [] n sgl = sgl
stored ((len, dma) ∷ segments) n sgl =
    stored segments (n + 1) (set sgl n (record { addr = dma; length = len; reserved = 0 }))

pub map_segments-mapped :
    (segments : List (ℕ × ℕ)) (n : ℕ) (sgl : List SglDesc)
    → n + length segments ≤ length sgl
    → map_segments (mapped segments) n sgl ≡ ok (true, n + length segments, stored segments n sgl)
unfolding map_segments
map_segments-mapped [] n sgl h = let total : n + 0 ≡ n = omega arith in rw total refl
map_segments-mapped ((len, dma) ∷ segments) n sgl h =
    let desc : SglDesc = record { addr = dma; length = len; reserved = 0 } in
    let room : ltb n (length sgl) ≡ true = ground arith in
    let total : n + suc (length segments) ≡ n + 1 + length segments = omega arith in
    rw (room, total)
      (map_segments-mapped segments (n + 1) (set sgl n desc) (omega (arith, length-set sgl n desc)))

pub length-stored :
    (segments : List (ℕ × ℕ)) (n : ℕ) (sgl : List SglDesc)
    → length (stored segments n sgl) ≡ length sgl
length-stored [] n sgl = refl
length-stored ((len, dma) ∷ segments) n sgl =
    let desc : SglDesc = record { addr = dma; length = len; reserved = 0 } in
    length-stored segments (n + 1) (set sgl n desc) ∙ length-set sgl n desc

pub take-stored :
    (segments : List (ℕ × ℕ)) (n : ℕ) (sgl : List SglDesc)
    → n + length segments ≤ length sgl
    → take (n + length segments) (stored segments n sgl) ≡ take n sgl ++ descriptors segments
take-stored [] n sgl h =
    let total : n + 0 ≡ n = omega arith in rw (total, append-nil (take n sgl)) refl
take-stored ((len, dma) ∷ segments) n sgl h =
    let desc : SglDesc = record { addr = dma; length = len; reserved = 0 } in
    let total : n + suc (length segments) ≡ n + 1 + length segments = omega arith in
    let next : n + 1 ≡ suc n = omega arith in
    let rest =
      take-stored segments (n + 1) (set sgl n desc) (omega (arith, length-set sgl n desc)) in
    let first = take-suc (set sgl n desc) n (get_elem?-set_self sgl n desc (omega arith)) in
    rw (total) (
      rest
      ∙ rw (next, first, take-set_self sgl n desc)
          (append_assoc (take n sgl) (desc ∷ []) (descriptors segments)))
