-- ===== src/Device/Invariant.antt =====
-- The well-formed states of the controller, and that a command keeps them.
use openflash_controller_lab.Base.{
  ℕ, ◌+◌, ◌/◌, ◌%◌, ◌≤◌, ◌<◌, ◌≡◌, ◌≢◌, refl, inl, inr, List, true, false, arith, length,
  length-replicate, replicate, u16, u64, Outcome, ok, Bool-cases, ◌==◌,
}
use openflash_controller_lab.Base.Splice.{splice, length-splice}
use openflash_controller_lab.Abi.Struct.{Command}
use openflash_controller_lab.Abi.Layout.{CommandFits}
use openflash_controller_lab.Abi.Opcode
use openflash_controller_lab.Platform.{Host, IsLawful}
use openflash_controller_lab.Device.State.{State, Queue, block_size}
use openflash_controller_lab.Device.Execute.{
  Executed, execute, rejects_ioq, new_ioq, create_ioq, flush, run_read, run_write, run_discard,
  run_data, read_result, write_result, outside_capacity, byte_offset, byte_length, ioq_id,
  ioq_vector, finish,
}
use openflash_controller_lab.Device.Bounds.{transfer-Transfers, store_bytes-eq-ok}

pub record QueueIsValid (q : Queue) : Type 0 where
  pub depth_le : q.depth ≤ 4096
  pub sq_head_fits : q.sq_head < u16
  pub cq_tail_fits : q.cq_tail < u16
  pub cq_phase_le : q.cq_phase ≤ 1
  pub sq_addr_fits : q.sq_addr < u64
  pub cq_addr_fits : q.cq_addr < u64
  pub enabled_depth : q.enabled ≡ true → 1 ≤ q.depth

-- Between two MMIO accesses of a realized device.
pub record IsValid (s : State) : Type 0 where
  pub admin_valid : QueueIsValid s.admin
  pub io_valid : QueueIsValid s.io
  pub storage_full : length s.storage ≡ s.capacity
  pub capacity_fits : s.capacity < u64
  pub one_block : block_size ≤ s.capacity
  pub whole_blocks : s.capacity % block_size ≡ 0
  pub status_le : s.status ≤ 1

-- What no command changes.
pub record SameDevice (s t : State) : Type 0 where
  pub same_admin : t.admin ≡ s.admin
  pub same_capacity : t.capacity ≡ s.capacity
  pub same_backing : t.backing_file ≡ s.backing_file
  pub same_status : t.status ≡ s.status
  pub same_control : t.control ≡ s.control

module _ (H : Host) where
  -- The command ended without a fault, in a well-formed state, with a status of the ABI; the admin
  -- queue and the registers are as they were.
  pub record Ends (s : State) (cmd : Command) (r : Outcome (Executed H)) : Type 0 where
    pub executed : Executed H
    pub returned : r ≡ ok executed
    pub valid : IsValid executed.state
    pub same : SameDevice s executed.state
    pub known_status : executed.status < 8
    pub same_io : cmd.opcode ≢ Opcode.create_ioq → executed.state.io ≡ s.io

  ends :
      (s : State) (cmd : Command) (e : Executed H) {r : Outcome (Executed H)}
      → r ≡ ok e
      → IsValid e.state
      → SameDevice s e.state
      → e.status < 8
      → (cmd.opcode ≢ Opcode.create_ioq → e.state.io ≡ s.io)
      → Ends s cmd r
  ends s cmd e p v d k i = record {
    executed = e;
    returned = p;
    valid = v;
    same = d;
    known_status = k;
    same_io = i;
  }

  SameDevice-storage : (s : State) (st : List ℕ) → SameDevice s (record s { storage = st })
  SameDevice-storage s st = ground arith

  IsValid-storage :
      (s : State) (st : List ℕ)
      → IsValid s
      → length st ≡ length s.storage
      → IsValid (record s { storage = st })
  IsValid-storage s st v e = ground arith

  -- What the guard of CREATE_IOQ lets through: queue 1, with a usable ring.
  pub accepts_ioq :
      (cmd : Command)
      → rejects_ioq cmd ≡ false
      → (ioq_id cmd ≡ 1)
        × (ioq_vector cmd < 2)
        × (1 ≤ cmd.nblocks)
        × (cmd.nblocks ≤ 4096)
        × (1 ≤ cmd.data_addr)
        × (1 ≤ cmd.metadata_addr)
  unfolding rejects_ioq
  accepts_ioq cmd e = ground arith

  create_ioq-Ends :
      (s : State) (w : H.World) (cmd : Command)
      → IsValid s
      → CommandFits cmd
      → cmd.opcode ≡ Opcode.create_ioq
      → Ends s cmd (ok (create_ioq H s w cmd))
  unfolding create_ioq
  create_ioq-Ends s w cmd v f is = elim (Bool-cases (rejects_ioq cmd)) [
    | inl bad ↦
        ends s cmd (finish H 2 0 s w) (rw bad) v (ground arith) (omega arith) (λ n. absurd (n is))
    | inr good ↦
        let a = accepts_ioq cmd good in
        ends s cmd (finish H 0 1 (record s { io = new_ioq cmd }) w) (rw (good, a.0)) (ground arith)
          (ground arith) (omega arith) (λ n. absurd (n is))
  ]

  flush-Ends : (s : State) (w : H.World) (cmd : Command) → IsValid s → Ends s cmd (ok (flush H s w))
  unfolding flush
  flush-Ends s w cmd v =
      ends s cmd (flush H s w) refl (ground arith) (ground arith) (ground arith) (λ _. ground arith)

module _ (H : Host) (L : IsLawful H) (s : State) (w : H.World) (cmd : Command) (v : IsValid s)
    (inside : byte_offset cmd + byte_length cmd ≤ s.capacity) where
  run_read-Ends : Ends H s cmd (run_read H s w cmd)
  unfolding run_read read_result
  run_read-Ends =
      let (done, st, w', e, l) =
        transfer-Transfers H L s.storage w cmd (byte_offset cmd) (byte_length cmd) false
          (omega arith) (omega arith) in
      ends H s cmd (read_result H s cmd (done, st, w')) (rw e) (ground arith) (ground arith)
        (ground arith) (λ _. ground arith)

  run_write-Ends : Ends H s cmd (run_write H s w cmd)
  unfolding run_write write_result
  run_write-Ends =
      let (done, st, w', e, l) =
        transfer-Transfers H L s.storage w cmd (byte_offset cmd) (byte_length cmd) true
          (omega arith) (omega arith) in
      ends H s cmd (write_result H s cmd (done, st, w')) (rw e) (ground arith) (ground arith)
        (ground arith) (λ _. ground arith)

  run_discard-Ends : Ends H s cmd (run_discard H s w cmd)
  unfolding run_discard
  run_discard-Ends =
      let zeros = length-replicate {A = ℕ} (byte_length cmd) 0 in
      let fits : byte_offset cmd + length (replicate {A = ℕ} (byte_length cmd) 0)
          ≤ length s.storage =
        omega (arith, zeros) in
      let st = splice s.storage (byte_offset cmd) (replicate (byte_length cmd) 0) in
      ends H s cmd (finish H 0 cmd.nblocks (record s { storage = st }) w)
        (rw (store_bytes-eq-ok s.storage (byte_offset cmd) _ fits))
        (IsValid-storage H s st v (length-splice s.storage (byte_offset cmd) _ fits))
        (SameDevice-storage H s st) (omega arith) (λ _. refl)

  run_data-Ends : Ends H s cmd (run_data H s w cmd)
  unfolding run_data
  run_data-Ends = elim (Bool-cases (cmd.opcode == Opcode.read)) [
    | inl r ↦ rw r run_read-Ends
    | inr nr ↦ elim (Bool-cases (cmd.opcode == Opcode.write)) [
      | inl wr ↦ rw (nr, wr) run_write-Ends
      | inr nw ↦ elim (Bool-cases (cmd.opcode == Opcode.discard)) [
        | inl d ↦ rw (nr, nw, d) run_discard-Ends
        | inr nd ↦
            rw (nr, nw, nd)
              (ends H s cmd (finish H 1 0 s w) refl v (ground arith) (omega arith) (λ _. refl))
      ]
    ]
  ]

pub in_capacity :
    (s : State) (cmd : Command)
    → outside_capacity s cmd ≡ false
    → byte_offset cmd + byte_length cmd ≤ s.capacity
unfolding outside_capacity
in_capacity s cmd e = ground arith

-- Any command, from a guest that may put any bytes in it, leaves a well-formed controller: it never
-- reads or writes outside the storage, its status is one of the ABI's, the admin queue, the
-- capacity, the backing file's name and the registers are as they were, and so is the I/O queue
-- unless the command is a CREATE_IOQ.
pub execute-Ends :
    (H : Host)
    → IsLawful H
    → (s : State) (w : H.World) (cmd : Command) → IsValid s
    → CommandFits cmd
    → Ends H s cmd (execute H s w cmd)
unfolding execute
execute-Ends H L s w cmd v f = elim (Bool-cases (cmd.opcode == Opcode.identify)) [
  | inl i ↦ rw i (
      ends H s cmd (finish H 0 (s.capacity / block_size) s w) refl v (ground arith) (omega arith)
        (λ _. refl))
  | inr ni ↦ elim (Bool-cases (cmd.opcode == Opcode.create_ioq)) [
    | inl c ↦ rw (ni, c) (create_ioq-Ends H s w cmd v f (ground arith))
    | inr nc ↦ elim (Bool-cases (cmd.opcode == Opcode.flush)) [
      | inl fl ↦ rw (ni, nc, fl) (flush-Ends H s w cmd v)
      | inr nf ↦ elim (Bool-cases (cmd.nblocks == 0)) [
        | inl z ↦
            rw (ni, nc, nf, z)
              (ends H s cmd (finish H 2 0 s w) refl v (ground arith) (omega arith) (λ _. refl))
        | inr nz ↦ elim (Bool-cases (outside_capacity s cmd)) [
          | inl o ↦
              rw (ni, nc, nf, nz, o)
                (ends H s cmd (finish H 3 0 s w) refl v (ground arith) (omega arith) (λ _. refl))
          | inr within ↦
              rw (ni, nc, nf, nz, within) (run_data-Ends H L s w cmd v (in_capacity s cmd within))
        ]
      ]
    ]
  ]
]
