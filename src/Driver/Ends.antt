-- ===== src/Driver/Ends.antt =====
-- driver/openflash/openflash_queue.c: the loop of the two interrupt handlers on any ring, also one that
-- the controller never wrote or wrote at random.
use native.Mathlib.Nat.{mod-eq_of_lt, mod_self}
use openflash_controller_lab.Base.{
  ℕ, zero, suc, ◌+◌, ◌-◌, ◌%◌, ◌<◌, ◌≡◌, ◌∙◌, refl, sym, ap, inl, inr, true, false, Bool-cases,
  arith, List, ◌==◌, bit_xor, xor_one, u16, Outcome, Succeeds, Succeeds-bind,
}
use openflash_controller_lab.Abi.Struct.{Completion}
use openflash_controller_lab.Driver.State.{DriverQueue, Event}
use openflash_controller_lab.Driver.Completion.{is_fresh, consume, drain}
use openflash_controller_lab.Driver.Drain.{SameRing}

consume_on :
    (q : DriverQueue)
    → q.depth < u16
    → q.cq_head + 1 < q.depth
    → ((consume q).cq_head ≡ q.cq_head + 1)
      × ((consume q).cq_phase ≡ q.cq_phase)
      × ((consume q).depth ≡ q.depth)
unfolding consume
consume_on q small lt =
    let head : ((q.cq_head + 1) % q.depth) % u16 ≡ q.cq_head + 1 = omega (arith, mod-eq_of_lt lt) in
    let test : (q.cq_head + 1 == 0) ≡ false = ground arith in (head, rw (head, test) refl, refl)

consume_round :
    (q : DriverQueue)
    → q.cq_head + 1 ≡ q.depth
    → ((consume q).cq_head ≡ 0)
      × ((consume q).cq_phase ≡ bit_xor q.cq_phase 1)
      × ((consume q).depth ≡ q.depth)
unfolding consume
consume_round q last =
    let head : ((q.cq_head + 1) % q.depth) % u16 ≡ 0 = rw last (omega (arith, mod_self q.depth)) in
    (head, rw head refl, refl)

-- What is done for the entry at the head succeeds, and keeps a property from one round to the next.
abbrev pub Rounds :
    (DriverQueue → Type 0)
    → (DriverQueue → Completion → Outcome (DriverQueue × List Event))
    → (ℕ → Completion)
    → Type 0
Rounds P take_one cqes =
    (q : DriverQueue)
    → P q
    → Succeeds (λ t. SameRing q t × P (consume t.0)) (take_one q (cqes q.cq_head))

module _ (take_one : DriverQueue → Completion → Outcome (DriverQueue × List Event))
    (P : DriverQueue → Type 0) (cqes : ℕ → Completion) (keeps : Rounds P take_one cqes) where
  -- One round: the loop stops at a stale entry, and goes on after a fresh one.
  round :
      (fuel completed : ℕ) (q : DriverQueue)
      → P q
      → (is_fresh q (cqes q.cq_head) ≡ true
          → (q' : DriverQueue) → P (consume q')
          → q'.depth ≡ q.depth
          → q'.cq_head ≡ q.cq_head
          → q'.cq_phase ≡ q.cq_phase
          → Succeeds (λ r. P r.0) (drain take_one fuel cqes (consume q') (completed + 1)))
      → Succeeds (λ r. P r.0) (drain take_one (suc fuel) cqes q completed)
  unfolding drain
  round fuel completed q p next = elim (Bool-cases (is_fresh q (cqes q.cq_head))) [
    | inl fresh ↦ rw fresh (
        Succeeds-bind (λ t. SameRing q t × P (consume t.0)) (λ r. P r.0)
          (take_one q (cqes q.cq_head)) _ (keeps q p)
          (λ t kept.
            Succeeds-bind (λ r. P r.0) (λ r. P r.0)
              (drain take_one fuel cqes (consume t.0) (completed + 1)) _
              (next fresh t.0 kept.1 kept.0.0 kept.0.1 kept.0.2) (λ r p'. p')))
    | inr stale ↦ rw stale p
  ]

  -- The rest of a lap up to an entry that is stale.
  to_stale :
      (n fuel completed g : ℕ) (q : DriverQueue)
      → n < fuel
      → q.cq_head + n ≡ g
      → g < q.depth
      → q.depth < u16
      → ((cqes g).flags % 2 == q.cq_phase) ≡ false
      → P q
      → Succeeds (λ r. P r.0) (drain take_one fuel cqes q completed)
  to_stale n zero completed g q f at below small stale p = absurd (omega arith)
  to_stale zero (suc fuel) completed g q f at below small stale p =
      round fuel completed q p (λ fresh.
        let here : q.cq_head ≡ g = omega arith in
        let still : is_fresh q (cqes q.cq_head) ≡ false =
          ap (λ i. (cqes i).flags % 2 == q.cq_phase) here ∙ stale in
        cc)
  to_stale (suc n) (suc fuel) completed g q f at below small stale p =
      round fuel completed q p (λ fresh q' p' depth_eq head_eq phase_eq.
        let on = consume_on q' (omega arith) (omega arith) in
        to_stale n fuel (completed + 1) g (consume q') (omega arith) (omega (arith, on.0))
          (omega (arith, on.2)) (omega (arith, on.2))
          (ap (λ p. (cqes g).flags % 2 == p) (on.1 ∙ phase_eq) ∙ stale) p')

  -- The rest of the first lap, after which entry `g`, which was fresh in it, is stale.
  to_end :
      (n fuel completed g : ℕ) (q : DriverQueue)
      → suc n + g < fuel
      → q.cq_head + suc n ≡ q.depth
      → g < q.depth
      → q.depth < u16
      → (cqes g).flags % 2 ≡ q.cq_phase
      → P q
      → Succeeds (λ r. P r.0) (drain take_one fuel cqes q completed)
  to_end n zero completed g q f at below small taken p = absurd (omega arith)
  to_end zero (suc fuel) completed g q f at below small taken p =
      round fuel completed q p (λ fresh q' p' depth_eq head_eq phase_eq.
        let over = consume_round q' (omega arith) in
        let turned : (consume q').cq_phase ≡ 1 - q.cq_phase =
          over.1 ∙ ap (λ p. bit_xor p 1) phase_eq ∙ xor_one q.cq_phase (omega arith) in
        to_stale g fuel (completed + 1) g (consume q') (omega arith) (omega (arith, over.0))
          (omega (arith, over.2)) (omega (arith, over.2)) (ground (arith, turned)) p')
  to_end (suc n) (suc fuel) completed g q f at below small taken p =
      round fuel completed q p (λ fresh q' p' depth_eq head_eq phase_eq.
        let on = consume_on q' (omega arith) (omega arith) in
        to_end n fuel (completed + 1) g (consume q') (omega arith) (omega (arith, on.0, on.2))
          (omega (arith, on.2)) (omega (arith, on.2)) (taken ∙ sym (on.1 ∙ phase_eq)) p')

  -- Whatever the ring holds, more rounds than it has entries are enough.
  pub drain_ends :
      (fuel completed : ℕ) (q : DriverQueue)
      → q.depth < fuel
      → q.cq_head < q.depth
      → q.depth < u16
      → P q
      → Succeeds (λ r. P r.0) (drain take_one fuel cqes q completed)
  drain_ends zero completed q f below small p = absurd (omega arith)
  drain_ends (suc fuel) completed q f below small p =
      elim (Bool-cases (is_fresh q (cqes q.cq_head))) [
        | inl fresh ↦
            to_end (q.depth - q.cq_head - 1) (suc fuel) completed q.cq_head q (omega arith)
              (omega arith) below small (ground arith) p
        | inr stale ↦
            to_stale 0 (suc fuel) completed q.cq_head q (omega arith) (omega arith) below small
              stale p
      ]
