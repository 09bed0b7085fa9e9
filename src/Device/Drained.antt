-- ===== src/Device/Drained.antt =====
-- The `while` loop of `openflash_process_sq`: how many entries it takes.
use openflash_controller_lab.Base.{
  ℕ, zero, suc, ◌+◌, ◌%◌, ◌≤◌, ◌<◌, ◌≡◌, ◌≢◌, ◌⊎◌, ◌∙◌, refl, ap, ap₂, subst, ◌>>=◌, if◌then◌else◌,
  inl, inr, false, arith, u16, Outcome, ok, Bool-cases, ◌==◌,
}
use openflash_controller_lab.Abi.Opcode
use openflash_controller_lab.Platform.{Host, IsLawful}
use openflash_controller_lab.Device.State.{State, get_queue}
use openflash_controller_lab.Device.Doorbell.{fetch, process_one, process_loop}
use openflash_controller_lab.Device.Invariant.{IsValid}
use openflash_controller_lab.Device.Round.{
  next_queue-depth, next_queue-sq_head, rounds, rounds-suc, process_one-Round,
}

module _ (H : Host) (L : IsLawful H) where
  -- Along the loop's rounds no command on the I/O queue is a CREATE_IOQ.
  abbrev pub NoCreate : ℕ → ℕ → ℕ → State → H.World → Type 0
  NoCreate zero qid tail s w = Unit {0}
  NoCreate (suc n) qid tail s w =
      (get_queue s qid).sq_head ≢ tail
      → ((qid ≡ 0) ⊎ ((fetch H w (get_queue s qid)).opcode ≢ Opcode.create_ioq))
        × ((s' : State) (w' : H.World)
            → process_one H qid s w ≡ ok (s', w')
            → NoCreate n qid tail s' w')

  pub NoCreate-admin : (n tail : ℕ) (s : State) (w : H.World) → NoCreate n 0 tail s w
  NoCreate-admin zero tail s w = tt
  NoCreate-admin (suc n) tail s w = λ _. (inl refl, λ s' w' _. NoCreate-admin n tail s' w')

  -- The entries of the ring, one after the other from the head on.
  pub take_entries : ℕ → ℕ → State → H.World → Outcome (State × H.World)
  take_entries zero qid s w = ok (s, w)
  take_entries (suc n) qid s w = process_one H qid s w >>= λ r. take_entries n qid r.0 r.1

  -- The loop has returned: it has taken `n` entries, and the queue's head stands at the tail that the
  -- guest rang.
  pub record Drains (qid tail n : ℕ) (s : State) (w : H.World) (r : Outcome (State × H.World))
      : Type 0 where
    pub state : State
    pub world : H.World
    pub returned : r ≡ ok (state, world)
    pub entries : take_entries n qid s w ≡ ok (state, world)
    pub valid : IsValid state
    pub at_tail : (get_queue state qid).sq_head ≡ tail

  no_entries : (qid : ℕ) (s : State) (w : H.World) → take_entries 0 qid s w ≡ ok (s, w)
  unfolding take_entries
  no_entries qid s w = refl

  -- No entry, or one and then the others.
  none_left :
      (d h t : ℕ) (qid : ℕ) (s : State) (w : H.World)
      → h ≡ t
      → take_entries (rounds d h t) qid s w ≡ ok (s, w)
  unfolding take_entries
  none_left d h t qid s w at =
      let zero_left : rounds d h t ≡ 0 = ground (arith, at) in rw zero_left refl

  one_more :
      (n qid : ℕ) (s s1 s2 : State) (w w1 w2 : H.World)
      → process_one H qid s w ≡ ok (s1, w1)
      → take_entries n qid s1 w1 ≡ ok (s2, w2)
      → take_entries (suc n) qid s w ≡ ok (s2, w2)
  unfolding take_entries
  one_more n qid s s1 s2 w w1 w2 one others = rw one others

  process_loop-Drains :
      (fuel qid tail : ℕ) (s : State) (w : H.World)
      → IsValid s
      → (get_queue s qid).sq_head < (get_queue s qid).depth
      → tail < (get_queue s qid).depth
      → (get_queue s qid).depth ≤ 4096
      → rounds (get_queue s qid).depth (get_queue s qid).sq_head tail < fuel
      → NoCreate fuel qid tail s w
      → Drains qid tail
          (rounds (get_queue s qid).depth (get_queue s qid).sq_head tail)
          s
          w
          (process_loop H fuel qid tail s w)
  unfolding process_loop
  process_loop-Drains zero qid tail s w v hd td le f k = absurd (omega arith)
  process_loop-Drains (suc fuel) qid tail s w v hd td le f k =
      elim (Bool-cases ((get_queue s qid).sq_head == tail)) [
        | inl at ↦ record {
          state = s;
          world = w;
          returned = rw at;
          entries =
              none_left (get_queue s qid).depth (get_queue s qid).sq_head tail qid s w
                (ground arith);
          valid = v;
          at_tail = ground arith;
        }
        | inr away ↦
            let q = get_queue s qid in
            let ne : q.sq_head ≢ tail = ground arith in
            let r = process_one-Round H L qid s w v in
            let mv = r.moves (k ne).0 in
            let depth : (get_queue r.state qid).depth ≡ q.depth =
              ap (λ x. x.depth) mv ∙ next_queue-depth q in
            let head : (get_queue r.state qid).sq_head ≡ ((q.sq_head + 1) % q.depth) % u16 =
              ap (λ x. x.sq_head) mv ∙ next_queue-sq_head q in
            let fewer = rounds-suc q.depth q.sq_head tail hd td le ne in
            let left : suc
                  (rounds (get_queue r.state qid).depth (get_queue r.state qid).sq_head tail)
                ≡ rounds q.depth q.sq_head tail =
              rw (depth, head) fewer in
            let ih =
              process_loop-Drains fuel qid tail r.state r.world r.valid
                (rw (depth, head) (omega arith)) (rw depth td) (rw depth le)
                (rw (depth, head) (omega arith)) ((k ne).1 r.state r.world r.returned) in
            record {
              state = ih.state;
              world = ih.world;
              returned = rw (away, r.returned) ih.returned;
              entries =
                  subst (λ n. take_entries n qid s w ≡ ok (ih.state, ih.world)) left
                    (one_more
                      (rounds (get_queue r.state qid).depth (get_queue r.state qid).sq_head tail)
                      qid s r.state ih.state w r.world ih.world r.returned ih.entries);
              valid = ih.valid;
              at_tail = ih.at_tail;
            }
      ]

  -- How many entries there are from a head to a tail; a head outside the ring goes back into it.
  abbrev pub to_take : ℕ → ℕ → ℕ → ℕ
  to_take depth head tail =
      if head == tail then 0 else suc (rounds depth (((head + 1) % depth) % u16) tail)

  and_others :
      (depth head tail : ℕ) {n : ℕ} (qid : ℕ) (s s1 s2 : State) (w w1 w2 : H.World)
      → (head == tail) ≡ false
      → n ≡ rounds depth (((head + 1) % depth) % u16) tail
      → process_one H qid s w ≡ ok (s1, w1)
      → take_entries n qid s1 w1 ≡ ok (s2, w2)
      → take_entries (to_take depth head tail) qid s w ≡ ok (s2, w2)
  and_others depth head tail qid s s1 s2 w w1 w2 away count one others =
      rw (away, ← count) (one_more _ qid s s1 s2 w w1 w2 one others)

  -- From any head: a ring that was shrunk may have its head outside, for one round.
  pub process_loop_any :
      (fuel qid tail : ℕ) (s : State) (w : H.World)
      → IsValid s
      → tail < (get_queue s qid).depth
      → (get_queue s qid).depth ≤ 4096
      → 4098 ≤ fuel
      → NoCreate fuel qid tail s w
      → Drains qid tail
          (to_take (get_queue s qid).depth (get_queue s qid).sq_head tail)
          s
          w
          (process_loop H fuel qid tail s w)
  unfolding process_loop
  process_loop_any zero qid tail s w v td le f k = absurd (omega arith)
  process_loop_any (suc fuel) qid tail s w v td le f k =
      elim (Bool-cases ((get_queue s qid).sq_head == tail)) [
        | inl at ↦ record {
          state = s;
          world = w;
          returned = rw at;
          entries = rw at (no_entries qid s w);
          valid = v;
          at_tail = ground arith;
        }
        | inr away ↦
            let q = get_queue s qid in
            let ne : q.sq_head ≢ tail = ground arith in
            let r = process_one-Round H L qid s w v in
            let mv = r.moves (k ne).0 in
            let depth : (get_queue r.state qid).depth ≡ q.depth =
              ap (λ x. x.depth) mv ∙ next_queue-depth q in
            let head : (get_queue r.state qid).sq_head ≡ ((q.sq_head + 1) % q.depth) % u16 =
              ap (λ x. x.sq_head) mv ∙ next_queue-sq_head q in
            let ih =
              process_loop-Drains fuel qid tail r.state r.world r.valid
                (rw (depth, head) (omega arith)) (rw depth td) (rw depth le)
                (rounds-lt (rw (depth, head) (omega arith)) (rw depth td) (rw depth le) f)
                ((k ne).1 r.state r.world r.returned) in
            record {
              state = ih.state;
              world = ih.world;
              returned = rw (away, r.returned) ih.returned;
              entries =
                  and_others q.depth q.sq_head tail qid s r.state ih.state w r.world ih.world away
                    (ap₂ (λ (d h : ℕ). rounds d h tail) depth head) r.returned ih.entries;
              valid = ih.valid;
              at_tail = ih.at_tail;
            }
      ]
    where
      rounds-lt : {d h t n : ℕ} → h < d → t < d → d ≤ 4096 → 4098 ≤ suc n → rounds d h t < n
      rounds-lt a b c e = ground arith
