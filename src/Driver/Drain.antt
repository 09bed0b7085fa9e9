-- ===== src/Driver/Drain.antt =====
-- The loop of the two interrupt handlers against the phase tags of the ring.
use native.Mathlib.Nat.{
  mod-lt, mod-eq_of_lt, mod_self, div-add-mod', div-eq_of_lt-le, add-div_right, add-mod_right,
}
use openflash_controller_lab.Base.{
  ℕ, zero, suc, ◌+◌, ◌-◌, ◌*◌, ◌/◌, ◌%◌, ◌≤◌, ◌<◌, ◌≡◌, ◌∙◌, refl, ap, sym, inl, inr, true, false,
  arith, List, [], ◌∷◌, ◌++◌, ltb, ◌==◌, xor_one, u16, Outcome, bit_xor, if◌then◌else◌, ok, err,
  ◌>>=◌, Bool-cases, bind-ok, bind_assoc, Gives, subst,
}
use openflash_controller_lab.Abi.Struct.{Completion}
use openflash_controller_lab.Driver.State.{DriverQueue, Event}
use openflash_controller_lab.Driver.Completion.{is_fresh, consume, drain}

-- Positions count the entries since the ring was set up, from `depth` on, so that the first lap has
-- phase 1 and the zeroed ring stands for the lap before it.
le_of_ltb : {a b : ℕ} → ltb a b ≡ false → b ≤ a
le_of_ltb h = ground arith

module _ (d : ℕ) where
  -- The entries at the positions from `lo` up to `hi` carry their laps' phases.
  abbrev pub Tagged : (ℕ → Completion) → ℕ → ℕ → Type 0
  Tagged cqes lo hi = (j : ℕ) → lo ≤ j → j < hi → (cqes (j % d)).flags % 2 ≡ (j / d) % 2

  -- The driver has taken every entry before position `h`.
  pub record StandsAt (q : DriverQueue) (h : ℕ) : Type 0 where
    pub depth_lem : q.depth ≡ d
    pub at_head : q.cq_head ≡ h % d
    pub at_phase : q.cq_phase ≡ (h / d) % 2

  -- The entries at `n` positions from `h` on.
  abbrev pub entries : (ℕ → Completion) → ℕ → ℕ → List Completion
  entries cqes h zero = []
  entries cqes h (suc n) = cqes (h % d) ∷ entries cqes (h + 1) n

  lap : (h : ℕ) → 0 < d → h % d + 1 < d → ((h + 1) % d ≡ h % d + 1) × ((h + 1) / d ≡ h / d)
  lap h pos lt =
      let e = div-add-mod' h d in
      let quotient : (h + 1) / d ≡ h / d = div-eq_of_lt-le d (omega arith) (omega arith) in
      (omega (arith, div-add-mod' (h + 1) d, ap (λ (x : ℕ). x * d) quotient), quotient)

  lap_end : (h : ℕ) → 0 < d → h % d + 1 ≡ d → ((h + 1) % d ≡ 0) × ((h + 1) / d ≡ h / d + 1)
  lap_end h pos last =
      let e = div-add-mod' h d in
      let quotient : (h + 1) / d ≡ h / d + 1 = div-eq_of_lt-le d (omega arith) (omega arith) in
      (omega (arith, div-add-mod' (h + 1) d, ap (λ (x : ℕ). x * d) quotient), quotient)

  -- An index and a phase bit that stand for position `h` go on to stand for the next one.
  pub turn :
      (h index phase : ℕ)
      → 0 < d
      → d < u16
      → index ≡ h % d
      → phase ≡ (h / d) % 2
      → (((index + 1) % d) % u16 ≡ (h + 1) % d)
        × ((if ((index + 1) % d) % u16 == 0 then bit_xor phase 1 else phase) ≡ ((h + 1) / d) % 2)
  turn h index phase pos small at_index at_phase = elim (Bool-cases (ltb (h % d + 1) d)) [
    | inl in_lap ↦
        let lt : h % d + 1 < d = ground arith in
        let next = lap h pos lt in
        let head : ((index + 1) % d) % u16 ≡ h % d + 1 =
          rw at_index (omega (arith, mod-eq_of_lt lt)) in
        let test : (h % d + 1 == 0) ≡ false = ground arith in
        (head ∙ sym next.0, rw (head, test, next.1) at_phase)
    | inr wraps ↦
        let last : h % d + 1 ≡ d = omega (arith, mod-lt h pos, le_of_ltb wraps) in
        let next = lap_end h pos last in
        let head : ((index + 1) % d) % u16 ≡ 0 = rw (at_index, last) (omega (arith, mod_self d)) in
        (
          head ∙ sym next.0,
          rw (head, next.1, at_phase) (omega (arith, xor_one ((h / d) % 2) (omega arith))),
        )
  ]

  -- Taking one entry moves the driver on by one position.
  consume-StandsAt :
      (q : DriverQueue) (h : ℕ) → 0 < d → d < u16 → StandsAt q h → StandsAt (consume q) (h + 1)
  unfolding consume
  consume-StandsAt q h pos small v =
      let next = turn h q.cq_head q.cq_phase pos small v.at_head v.at_phase in
      record {
        depth_lem = v.depth_lem;
        at_head = rw v.depth_lem next.0;
        at_phase = rw v.depth_lem next.1;
      }

  -- The entry at the driver's position is fresh below the tail, and stale at the tail.
  fresh-Tagged :
      (cqes : ℕ → Completion) (q : DriverQueue) (lo hi h : ℕ)
      → Tagged cqes lo hi
      → StandsAt q h
      → lo ≤ h
      → h < hi
      → is_fresh q (cqes q.cq_head) ≡ true
  fresh-Tagged cqes q lo hi h t v a b = rw v.at_head (ground (arith, t h a b, v.at_phase))

  stale-Tagged :
      (cqes : ℕ → Completion) (q : DriverQueue) (lo h : ℕ)
      → 0 < d
      → d ≤ h
      → lo + d ≤ h
      → Tagged cqes lo h
      → StandsAt q h
      → is_fresh q (cqes q.cq_head) ≡ false
  stale-Tagged cqes q lo h pos laps low t v =
      let back : h ≡ h - d + d = omega arith in
      let m : h % d ≡ (h - d) % d = ap (λ x. x % d) back ∙ add-mod_right (h - d) d in
      let k : h / d ≡ (h - d) / d + 1 = ap (λ x. x / d) back ∙ add-div_right (h - d) pos in
      rw (v.at_head, m) (ground (arith, t (h - d) (omega arith) (omega arith), v.at_phase, k))

-- What handlers do with a list of completions, one after the other.
unfoldable pub serve :
    (DriverQueue → Completion → Outcome (DriverQueue × List Event))
    → DriverQueue
    → List Completion
    → Outcome (DriverQueue × List Event)
serve take_one q [] = ok (q, [])
serve take_one q (c ∷ cs) =
    take_one q c >>= λ t. serve take_one (consume t.0) cs >>= λ r. ok (r.0, t.1 ++ r.1)

-- What is done for an entry leaves the ring's indices alone.
abbrev pub SameRing : DriverQueue → DriverQueue × List Event → Type 0
SameRing q t = (t.0.depth ≡ q.depth) × (t.0.cq_head ≡ q.cq_head) × (t.0.cq_phase ≡ q.cq_phase)

abbrev pub KeepsRing : (DriverQueue → Completion → Outcome (DriverQueue × List Event)) → Type 0
KeepsRing take_one = (q : DriverQueue) (c : Completion) → Gives (SameRing q) (take_one q c)

abbrev pub with_count : ℕ → DriverQueue × List Event → DriverQueue × List Event × ℕ
with_count n r = (r.0, r.1, n)

-- The count can be put beside the result before or after the events of an earlier entry.
regroup :
    (x : Outcome (DriverQueue × List Event)) (n : ℕ) (first : List Event)
    → ((x >>= λ r. ok (with_count n r)) >>= λ r. ok (r.0, first ++ r.1, r.2))
      ≡ ((x >>= λ r. ok (r.0, first ++ r.1)) >>= λ r. ok (with_count n r))
regroup (ok r) n first = refl
regroup (err e) n first = refl

module _ (take_one : DriverQueue → Completion → Outcome (DriverQueue × List Event))
    (keeps : KeepsRing take_one) (d : ℕ) (cqes : ℕ → Completion) where
  -- A driver at position `h` of a ring whose newest entry is the one before position `h + n` takes
  -- exactly those `n` entries, each once and in order, and stops.
  pub drain-Tagged :
      (n h lo fuel completed : ℕ) (q : DriverQueue)
      → 0 < d
      → d < u16
      → n < fuel
      → lo ≤ h
      → lo + d ≤ h + n
      → d ≤ h
      → Tagged d cqes lo (h + n)
      → StandsAt d q h
      → drain take_one fuel cqes q completed
        ≡ (serve take_one q (entries d cqes h n) >>= λ r. ok (with_count (completed + n) r))
  unfolding drain serve
  drain-Tagged n h lo zero completed q pos small f a b c t v = absurd (omega arith)
  drain-Tagged zero h lo (suc fuel) completed q pos small f a b c t v =
      let none_left : h + 0 ≡ h = omega arith in
      let stale =
        stale-Tagged d cqes q lo h pos c (omega arith) (λ j from below. t j from (omega arith)) v in
      let count : completed + 0 ≡ completed = omega arith in rw (stale, count) refl
  drain-Tagged (suc n) h lo (suc fuel) completed q pos small f a b c t v =
      let fresh = fresh-Tagged d cqes q lo (h + suc n) h t v a (omega arith) in
      let next : h + suc n ≡ h + 1 + n = omega arith in
      let count : completed + suc n ≡ completed + 1 + n = omega arith in
      let onwards : ((t' : DriverQueue × List Event)
          → take_one q (cqes q.cq_head) ≡ ok t'
          → drain take_one fuel cqes (consume t'.0) (completed + 1) ≡ (
              serve take_one (consume t'.0) (entries d cqes (h + 1) n) >>= λ r.
              ok (with_count (completed + 1 + n) r))) =
        λ t' e.
          let k = subst (Gives (SameRing q)) e (keeps q (cqes q.cq_head)) in
          drain-Tagged n (h + 1) lo fuel (completed + 1) (consume t'.0) pos small (omega arith)
            (omega arith) (omega arith) (omega arith) (λ j from below. t j from (omega arith))
            (consume-StandsAt d t'.0 h pos small (record {
              depth_lem = k.0 ∙ v.depth_lem;
              at_head = k.1 ∙ v.at_head;
              at_phase = k.2 ∙ v.at_phase;
            })) in
      rw (fresh, sym (ap cqes v.at_head), count, bind_assoc (take_one q (cqes q.cq_head)))
        (bind-ok (take_one q (cqes q.cq_head)) (λ t' e. rw (onwards t' e) (
          regroup (serve take_one (consume t'.0) (entries d cqes (h + 1) n)) (completed + 1 + n)
            t'.1)))
