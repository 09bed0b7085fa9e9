-- ===== src/Driver/Waiting.antt =====
-- driver/openflash/openflash_queue.c, openflash_irq: the admin queue while a command waits.
use native.Mathlib.Nat.{mod-lt}
use openflash_controller_lab.Base.{
  ℕ, ◌+◌, ◌%◌, ◌<◌, ◌≡◌, refl, ◌⊎◌, inl, inr, true, false, not, Bool-cases, arith, List, [], ◌∷◌,
  ◌==◌, test_bit, u16, ok, Succeeds, Succeeds-bind,
}
use openflash_controller_lab.Abi.Struct.{Completion}
use openflash_controller_lab.Driver.State.{DriverQueue}
use openflash_controller_lab.Driver.Completion.{take_admin, consume, drain, drain_admin_cq}
use openflash_controller_lab.Driver.Drain.{SameRing}
use openflash_controller_lab.Driver.Ends.{drain_ends}
use openflash_controller_lab.Driver.Kernel.{Interrupt, Resource}
use openflash_controller_lab.Driver.Holds.{admin_owned}
use openflash_controller_lab.Driver.Admin.{irq, irqs}

-- The completions that the handler can see during the wait.
abbrev pub Shown : List Interrupt → Completion → Type 0
Shown [] c = ⊥
Shown (i ∷ is) c = ((j : ℕ) × (i.cqes j ≡ c)) ⊎ Shown is c

-- A completion that was seen is the one that the queue remembers.
abbrev pub Answered : (Completion → Type 0) → DriverQueue → Type 0
Answered Seen q =
    (c : Completion) × Seen c
    × (c.cid ≡ q.admin_cid)
    × (c.status ≡ q.admin_status)
    × (c.result ≡ q.admin_result)

-- The admin queue during a wait for the command with identifier `cid`.
pub record IsWaiting (xs : List Resource) (cid : ℕ) (Seen : Completion → Type 0) (q : DriverQueue)
    : Type 0 where
  pub below : q.cq_head < q.depth
  pub small : q.depth < u16
  pub owns : admin_owned q ≡ xs
  pub waits_for : q.admin_cid ≡ cid
  pub settled : (q.admin_done ≡ false) ⊎ (q.admin_pending ≡ false)
  pub outcome : (q.admin_done ≡ false) ⊎ (q.admin_error ≡ true) ⊎ Answered Seen q

module _ (xs : List Resource) (cid : ℕ) (Seen : Completion → Type 0) where
  take_admin-IsWaiting :
      (q : DriverQueue) (c : Completion)
      → Seen c
      → IsWaiting xs cid Seen q
      → SameRing q (take_admin q c) × IsWaiting xs cid Seen (consume (take_admin q c).0)
  unfolding take_admin consume
  take_admin-IsWaiting q c seen w =
      let pos : 0 < q.depth = omega (arith, w.below) in
      let head : ((q.cq_head + 1) % q.depth) % u16 < q.depth =
        omega (arith, mod-lt (q.cq_head + 1) pos) in
      elim (Bool-cases q.admin_pending) [
        | inl pending ↦ elim (Bool-cases (c.cid == q.admin_cid)) [
          | inl mine ↦
              let same : c.cid ≡ q.admin_cid = ground arith in
              rw (pending, mine)
                (
                  (refl, refl, refl),
                  record {
                    below = head;
                    small = w.small;
                    owns = w.owns;
                    waits_for = w.waits_for;
                    settled = inr refl;
                    outcome = inr (inr (c, seen, same, refl, refl));
                  },
                )
          | inr stranger ↦
              rw (pending, stranger)
                (
                  (refl, refl, refl),
                  record {
                    below = head;
                    small = w.small;
                    owns = w.owns;
                    waits_for = w.waits_for;
                    settled = inr refl;
                    outcome = inr (inl refl);
                  },
                )
        ]
        | inr idle ↦ rw idle (
          (refl, refl, refl),
          record {
            below = head;
            small = w.small;
            owns = w.owns;
            waits_for = w.waits_for;
            settled = inr refl;
            outcome = w.outcome;
          },
        )
      ]

  drain_admin_cq-IsWaiting :
      (cqes : ℕ → Completion) (q : DriverQueue)
      → ((j : ℕ) → Seen (cqes j))
      → IsWaiting xs cid Seen q
      → Succeeds (λ r. IsWaiting xs cid Seen r.0) (drain_admin_cq (q.depth + 1) cqes q)
  unfolding drain_admin_cq
  drain_admin_cq-IsWaiting cqes q seen w =
      let take_one = λ (p : DriverQueue) (c : Completion). ok (take_admin p c) in
      let runs =
        drain_ends take_one (IsWaiting xs cid Seen) cqes
          (λ p w'. take_admin-IsWaiting p (cqes p.cq_head) (seen p.cq_head) w') (q.depth + 1) 0 q
          (omega arith) w.below w.small w in
      Succeeds-bind (λ r. IsWaiting xs cid Seen r.0) (λ r. IsWaiting xs cid Seen r.0)
        (drain take_one (q.depth + 1) cqes q 0) _ runs
        (λ r w'. elim (Bool-cases (r.2 == 0)) [
          | inl nothing ↦ rw nothing w'
          | inr some_taken ↦ rw some_taken w'
        ])

  irq-IsWaiting :
      (i : Interrupt) (q : DriverQueue)
      → ((j : ℕ) → Seen (i.cqes j))
      → IsWaiting xs cid Seen q
      → Succeeds (λ r. IsWaiting xs cid Seen r.0) (irq i q)
  unfolding irq
  irq-IsWaiting i q seen w = elim (Bool-cases (not (test_bit i.status 0))) [
    | inl not_ready ↦ rw not_ready w
    | inr up ↦ rw up (
        Succeeds-bind (λ r. IsWaiting xs cid Seen r.0) (λ r. IsWaiting xs cid Seen r.0)
          (drain_admin_cq (q.depth + 1) i.cqes q) _ (drain_admin_cq-IsWaiting i.cqes q seen w)
          (λ r w'. w'))
  ]

  pub irqs-IsWaiting :
      (is : List Interrupt) (q : DriverQueue)
      → ((c : Completion) → Shown is c → Seen c)
      → IsWaiting xs cid Seen q
      → Succeeds (λ r. IsWaiting xs cid Seen r.0) (irqs is q)
  unfolding irqs
  irqs-IsWaiting [] q seen w = w
  irqs-IsWaiting (i ∷ is) q seen w =
      Succeeds-bind (λ r. IsWaiting xs cid Seen r.0) (λ r. IsWaiting xs cid Seen r.0) (irq i q) _
        (irq-IsWaiting i q (λ j. seen (i.cqes j) (inl (j, refl))) w)
        (λ r w'.
          Succeeds-bind (λ r'. IsWaiting xs cid Seen r'.0) (λ r'. IsWaiting xs cid Seen r'.0)
            (irqs is r.0) _ (irqs-IsWaiting is r.0 (λ c shown. seen c (inr shown)) w')
            (λ r' w''. w''))
