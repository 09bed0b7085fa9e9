-- ===== src/Device/Round.antt =====
-- One round of the loop in `openflash_process_sq`: it ends, and moves the queue on by one entry.
use native.Mathlib.Nat.{mod-eq_of_lt, mod_self}
use openflash_controller_lab.Base.{
  ℕ, suc, ◌+◌, ◌-◌, ◌%◌, ◌≤◌, ◌<◌, ◌≡◌, ◌≢◌, ◌⊎◌, ◌∙◌, refl, ap, inl, inr, arith, u16, ok,
  Bool-cases, if◌then◌else◌, leb, ltb, ◌==◌, xor_one,
}
use openflash_controller_lab.Abi.Struct.{Command}
use openflash_controller_lab.Abi.Layout.{CommandFits, decode_command-CommandFits}
use openflash_controller_lab.Abi.Opcode
use openflash_controller_lab.Platform.{Host, IsLawful}
use openflash_controller_lab.Device.State.{State, Queue, get_queue}
use openflash_controller_lab.Device.Execute.{Executed}
use openflash_controller_lab.Device.Doorbell.{
  advance_head, advance_tail, fetch, complete, process_one,
}
use openflash_controller_lab.Device.Invariant.{QueueIsValid, IsValid, execute-Ends}

advance-QueueIsValid : (q : Queue) → QueueIsValid q → QueueIsValid (advance_tail (advance_head q))
unfolding advance_tail
advance-QueueIsValid q v = ground (arith, xor_one q.cq_phase)

-- Where the round on a queue leaves it, if its command has left the queue alone.
abbrev pub next_queue : Queue → Queue
next_queue q = advance_tail (advance_head q)

pub next_queue-depth : (q : Queue) → (next_queue q).depth ≡ q.depth
unfolding advance_tail
next_queue-depth q = refl

pub next_queue-sq_head : (q : Queue) → (next_queue q).sq_head ≡ ((q.sq_head + 1) % q.depth) % u16
unfolding advance_tail
next_queue-sq_head q = refl

-- The rounds from a head to a tail, going round at `depth`.
abbrev pub rounds : ℕ → ℕ → ℕ → ℕ
rounds depth head tail = if leb head tail then tail - head else tail + depth - head

next-head :
    (d h : ℕ) → h < d → d ≤ 4096 → ((h + 1) % d) % u16 ≡ (if ltb (h + 1) d then h + 1 else 0)
next-head d h hd le = elim (Bool-cases (ltb (h + 1) d)) [
  | inl p ↦ let lt : h + 1 < d = ground arith in rw p (omega (arith, mod-eq_of_lt lt))
  | inr p ↦ let eq : h + 1 ≡ d = ground arith in rw (p, eq) (omega (arith, mod_self d))
]

pub rounds-suc :
    (d h t : ℕ)
    → h < d
    → t < d
    → d ≤ 4096
    → h ≢ t
    → suc (rounds d (((h + 1) % d) % u16) t) ≡ rounds d h t
rounds-suc d h t hd td le ne = ground (arith, next-head d h hd le)

module _ (H : Host) (L : IsLawful H) where
  fetch-CommandFits : (w : H.World) (q : Queue) → CommandFits (fetch H w q)
  unfolding fetch
  fetch-CommandFits w q = decode_command-CommandFits _ (L.dma_read-AreBytes w _ _)

  complete-IsValid :
      (qid : ℕ) (cmd : Command) (e : Executed H)
      → IsValid e.state
      → IsValid (complete H qid cmd e).0
  unfolding complete
  complete-IsValid qid cmd e v = elim (Bool-cases (qid == 0)) [
    | inl z ↦ rw z (record {
      admin_valid = advance-QueueIsValid e.state.admin v.admin_valid;
      io_valid = v.io_valid;
      storage_full = v.storage_full;
      capacity_fits = v.capacity_fits;
      one_block = v.one_block;
      whole_blocks = v.whole_blocks;
      status_le = v.status_le;
    })
    | inr nz ↦ rw nz (record {
      admin_valid = v.admin_valid;
      io_valid = advance-QueueIsValid e.state.io v.io_valid;
      storage_full = v.storage_full;
      capacity_fits = v.capacity_fits;
      one_block = v.one_block;
      whole_blocks = v.whole_blocks;
      status_le = v.status_le;
    })
  ]

  get_queue-complete :
      (qid : ℕ) (cmd : Command) (e : Executed H)
      → get_queue (complete H qid cmd e).0 qid ≡ next_queue (get_queue e.state qid)
  unfolding complete
  get_queue-complete qid cmd e = elim (Bool-cases (qid == 0)) [ inl z ↦ rw z | inr n ↦ rw n ]

  get_queue-same :
      (s t : State) (qid : ℕ)
      → t.admin ≡ s.admin
      → (qid ≢ 0 → t.io ≡ s.io)
      → get_queue t qid ≡ get_queue s qid
  get_queue-same s t qid a i = ground arith

  -- What a round on queue `qid` does. The queue moves on by one entry, unless the command is a
  -- CREATE_IOQ on the I/O queue.
  pub record Round (qid : ℕ) (s : State) (w : H.World) : Type 0 where
    pub state : State
    pub world : H.World
    pub returned : process_one H qid s w ≡ ok (state, world)
    pub valid : IsValid state
    pub moves :
        (qid ≡ 0) ⊎ ((fetch H w (get_queue s qid)).opcode ≢ Opcode.create_ioq)
        → get_queue state qid ≡ next_queue (get_queue s qid)

  pub process_one-Round : (qid : ℕ) (s : State) (w : H.World) → IsValid s → Round qid s w
  unfolding process_one
  process_one-Round qid s w v =
      let cmd = fetch H w (get_queue s qid) in
      let e = execute-Ends H L s w cmd v (fetch-CommandFits w (get_queue s qid)) in
      let r = complete H qid cmd e.executed in
      record {
        state = r.0;
        world = r.1;
        returned = rw e.returned;
        valid = complete-IsValid qid cmd e.executed e.valid;
        moves = λ k.
            get_queue-complete qid cmd e.executed
            ∙ ap next_queue (
                get_queue-same s e.executed.state qid e.same.same_admin
                  (λ n. elim k [ inl z ↦ absurd (n z) | inr other ↦ e.same_io other ]));
      }
