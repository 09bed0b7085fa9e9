-- ===== src/Device/Durable.antt =====
-- openflash_persist against openflash_realize: what a restart finds.
use Prim.Native.String.{String}
use openflash_controller_lab.Base.{
  ℕ, ◌%◌, ◌<◌, ◌≡◌, ◌∙◌, refl, ap, sym, Bool, true, false, not, Option, none, some, ok-injective,
  ◌≢◌, ◌>>=◌, Outcome, err, Bool-cases, inl, inr, subst, List, arith, length, length-replicate,
  take, ltb, ◌==◌, ◌||◌, u64, ok,
}
use openflash_controller_lab.Base.Splice.{take-length}
use openflash_controller_lab.Abi.Struct.{Command, has_fua}
use openflash_controller_lab.Abi.Opcode
use openflash_controller_lab.Abi.StatusCode
use openflash_controller_lab.Platform.{Host, IsLawful}
use openflash_controller_lab.Device.State.{State, block_size, reset}
use openflash_controller_lab.Device.Execute.{
  Executed, execute, flush, persist, write_result, make_durable, run_write, run_data,
  outside_capacity, byte_offset, byte_length,
}
use openflash_controller_lab.Device.Realize.{ready, blank, realize}
use openflash_controller_lab.Abi.Layout.{CommandFits}
use openflash_controller_lab.Device.Transfer.{transfer}
use openflash_controller_lab.Device.Invariant.{IsValid, execute-Ends}

-- A device that starts on this file with this capacity holds the storage `st`, in its reset state.
abbrev pub Restores : (H : Host) → H.World → String → ℕ → List ℕ → Type 0
Restores H w file capacity st =
    realize H false (blank capacity (some file)) w
    ≡ ready (reset (record (blank capacity (some file)) { storage = st }))

-- What `openflash_realize` makes ready is well formed, and as large as it was asked to be.
pub realize-IsValid :
    (H : Host) (msix_fails : Bool) (capacity : ℕ) (file : Option String) (w : H.World) (s : State)
    → capacity < u64
    → realize H msix_fails (blank capacity file) w ≡ ready s
    → IsValid s × (s.capacity ≡ capacity)
unfolding realize reset
realize-IsValid H msix_fails capacity none w s fits e =
    ground (arith, length-replicate {A = ℕ} capacity 0)
realize-IsValid H msix_fails capacity (some file) w s fits e =
    ground (arith, length-replicate {A = ℕ} capacity 0)

module _ (H : Host) (L : IsLawful H) where
  restores_lem :
      (s : State) (w w' : H.World) (file : String)
      → IsValid s
      → H.file_set_contents w file (take s.capacity s.storage) ≡ (w', true)
      → Restores H w' file s.capacity s.storage
  unfolding realize
  restores_lem s w w' file v e =
      let all : take s.capacity s.storage ≡ s.storage =
        ap (λ n. take n s.storage) (sym v.storage_full) ∙ take-length s.storage in
      let kept = L.file_get-file_set w w' file (take s.capacity s.storage) e in
      let whole : (ltb s.capacity block_size || not (s.capacity % block_size == 0)) ≡ false =
        ground arith in
      let full : (length s.storage == s.capacity) ≡ true = ground (arith, v.storage_full) in
      rw (whole, kept.0, kept.1, all, full)

  persist-Restores :
      (s : State) (w : H.World) (file : String)
      → IsValid s
      → s.backing_file ≡ some file
      → (persist H s w).0 ≡ true
      → Restores H (persist H s w).1 file s.capacity s.storage
  unfolding persist
  persist-Restores s w file v b d =
      let r = H.file_set_contents w file (take s.capacity s.storage) in
      rw b (restores_lem s w r.0 file v (λ i. (r.0, (rw b at d) i)))

  flush_effect :
      (s : State) (w : H.World)
      → ((flush H s w).state ≡ s)
        × ((flush H s w).world ≡ (persist H s w).1)
        × ((flush H s w).status ≡ StatusCode.success → (persist H s w).0 ≡ true)
  unfolding flush
  flush_effect s w = (ground arith, ground arith, λ h. ground arith)

  fua_effect :
      (s : State) (w : H.World) (cmd : Command) (st : List ℕ)
      → has_fua cmd ≡ true
      → let s' = record s { storage = st } in
        ((write_result H s cmd (true, st, w)).state ≡ s')
        × ((write_result H s cmd (true, st, w)).world ≡ (persist H s' w).1)
        × ((write_result H s cmd (true, st, w)).status ≡ StatusCode.success
            → (persist H s' w).0 ≡ true)
  unfolding write_result make_durable
  fua_effect s w cmd st f = (ground arith, ground arith, λ h. ground arith)

  -- A FLUSH that succeeds leaves the state alone, and a restart on the same backing file finds the
  -- storage as it was then.
  pub flush_durable :
      (s : State) (w : H.World) (cmd : Command) (file : String) (e : Executed H)
      → IsValid s
      → s.backing_file ≡ some file
      → cmd.opcode ≡ Opcode.flush
      → execute H s w cmd ≡ ok e
      → e.status ≡ StatusCode.success
      → (e.state ≡ s) × Restores H e.world file s.capacity s.storage
  unfolding execute
  flush_durable s w cmd file e v b is run done =
      let a : (cmd.opcode == Opcode.identify) ≡ false = ground (arith, is) in
      let c : (cmd.opcode == Opcode.create_ioq) ≡ false = ground (arith, is) in
      let f : (cmd.opcode == Opcode.flush) ≡ true = ground (arith, is) in
      let same : flush H s w ≡ e = ok-injective (rw (a, c, f) at run) in
      let x = flush_effect s w in
      rw (← same, x.0, x.1)
        (refl, persist-Restores s w file v b (x.2 (ap (λ r. r.status) same ∙ done)))

  refused :
      (s : State) (cmd : Command) (st : List ℕ) (w : H.World)
      → (write_result H s cmd (false, st, w)).status ≢ StatusCode.success
  unfolding write_result
  refused s cmd st w h = omega (arith, h)

  run_write_durable :
      (s : State) (w : H.World) (cmd : Command) (e : Executed H)
      → has_fua cmd ≡ true
      → run_write H s w cmd ≡ ok e
      → e.status ≡ StatusCode.success
      → (w' : H.World) × (e.world ≡ (persist H e.state w').1) × ((persist H e.state w').0 ≡ true)
  unfolding run_write
  run_write_durable s w cmd e fua run done =
      after (transfer H s.storage w cmd (byte_offset cmd) (byte_length cmd) true) run
    where
      after :
          (o : Outcome (Bool × List ℕ × H.World))
          → (o >>= λ t. ok (write_result H s cmd t)) ≡ ok e
          → (w' : H.World) × (e.world ≡ (persist H e.state w').1)
            × ((persist H e.state w').0 ≡ true)
      after (err f) h = cc
      after (ok (false, st, w')) h =
          absurd (refused s cmd st w' (ap (λ r. r.status) (ok-injective h) ∙ done))
      after (ok (true, st, w')) h =
          let same = ok-injective h in
          let x = fua_effect s w' cmd st fua in
          let state : record s { storage = st } ≡ e.state = sym x.0 ∙ ap (λ r. r.state) same in
          (
            w',
            sym (ap (λ r. r.world) same) ∙ x.1 ∙ ap (λ t. (persist H t w').1) state,
            sym (ap (λ t. (persist H t w').0) state) ∙ x.2 (ap (λ r. r.status) same ∙ done),
          )

  -- A write that succeeds has come to its transfer.
  reaches :
      (s : State) (w : H.World) (cmd : Command) (e : Executed H)
      → cmd.opcode ≡ Opcode.write
      → execute H s w cmd ≡ ok e
      → e.status ≡ StatusCode.success
      → run_write H s w cmd ≡ ok e
  unfolding execute run_data
  reaches s w cmd e is run done =
      let a : (cmd.opcode == Opcode.identify) ≡ false = ground (arith, is) in
      let b : (cmd.opcode == Opcode.create_ioq) ≡ false = ground (arith, is) in
      let c : (cmd.opcode == Opcode.flush) ≡ false = ground (arith, is) in
      let d : (cmd.opcode == Opcode.read) ≡ false = ground (arith, is) in
      let g : (cmd.opcode == Opcode.write) ≡ true = ground (arith, is) in
      elim (Bool-cases (cmd.nblocks == 0)) [
        | inl nothing ↦
            let bad : StatusCode.invalid_field ≡ StatusCode.success =
              ap (λ r. r.status) (ok-injective (rw (a, b, c, nothing) at run)) ∙ done in
            absurd (omega (arith, bad))
        | inr some_blocks ↦ elim (Bool-cases (outside_capacity s cmd)) [
          | inl outside ↦
              let bad : StatusCode.lba_range ≡ StatusCode.success =
                ap (λ r. r.status) (ok-injective (rw (a, b, c, some_blocks, outside) at run))
                ∙ done in
              absurd (omega (arith, bad))
          | inr inside ↦ rw (a, b, c, some_blocks, inside, d, g) at run
        ]
      ]

  -- On a well-formed controller with a backing file, any write with FUA that succeeds, from one buffer
  -- or from a list, has its data in the file: a restart finds the storage that the write left.
  pub fua_durable :
      (s : State) (w : H.World) (cmd : Command) (file : String) (e : Executed H)
      → IsValid s
      → CommandFits cmd
      → s.backing_file ≡ some file
      → cmd.opcode ≡ Opcode.write
      → has_fua cmd ≡ true
      → execute H s w cmd ≡ ok e
      → e.status ≡ StatusCode.success
      → Restores H e.world file s.capacity e.state.storage
  fua_durable s w cmd file e v fits b is fua run done =
      let x = execute-Ends H L s w cmd v fits in
      let same : x.executed ≡ e = ok-injective (sym x.returned ∙ run) in
      let valid : IsValid e.state = subst (λ (r : Executed H). IsValid r.state) same x.valid in
      let file_lem : e.state.backing_file ≡ some file =
        ap (λ (r : Executed H). r.state.backing_file) (sym same) ∙ x.same.same_backing ∙ b in
      let capacity : e.state.capacity ≡ s.capacity =
        ap (λ (r : Executed H). r.state.capacity) (sym same) ∙ x.same.same_capacity in
      let (w', world, kept) =
        run_write_durable s w cmd e fua (reaches s w cmd e is run done) done in
      subst (λ (n : ℕ). Restores H e.world file n e.state.storage) capacity
        (subst (λ (u : H.World). Restores H u file e.state.capacity e.state.storage) (sym world)
          (persist-Restores e.state w' file valid file_lem kept))
