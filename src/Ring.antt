-- ===== src/Ring.antt =====
-- The completion ring between qemu/hw/block/openflash.c, whose openflash_process_sq fills it, and
-- driver/openflash/openflash_queue.c, whose handlers read it: entries carry the phase of their lap.
use native.Mathlib.Nat.{mod-lt, mod-eq_of_lt, mod-add-mod, add-mod_left}
use openflash_controller_lab.Base.{
  ℕ, ◌+◌, ◌-◌, ◌*◌, ◌/◌, ◌%◌, ◌≤◌, ◌<◌, ◌≡◌, ◌≢◌, ◌∙◌, refl, ap, sym, inl, inr, ◌⊎◌, true, arith,
  ltb, ◌==◌, u16, u64, Bool-cases, AreBytes, append-AreBytes, le_bytes-AreBytes,
  replicate_zero-AreBytes, le_bytes, replicate, ◌++◌, subst, [], ◌∷◌, ok, ◌>>=◌,
}
use openflash_controller_lab.Abi.Struct.{
  Command, Completion, completion_size, decode_completion, encode_completion,
}
use openflash_controller_lab.Abi.Layout.{CompletionFits, decode-encode_completion}
use openflash_controller_lab.Platform.{Host, IsLawful}
use openflash_controller_lab.Device.State.{State, Queue, get_queue, set_queue}
use openflash_controller_lab.Device.Execute
use openflash_controller_lab.Device.Doorbell.{
  advance_head, advance_tail, completion_of, post, complete,
}
use openflash_controller_lab.Driver.State.{DriverQueue}
use openflash_controller_lab.Driver.Completion.{take_io, io_irq, ring_cq_head}
use openflash_controller_lab.Driver.Drain.{Tagged, StandsAt, serve, with_count, turn}
use openflash_controller_lab.Driver.Handlers.{io_irq-Tagged}

-- Positions less than a lap apart have different indices.
apart : (d j k : ℕ) → 0 < d → 0 < k → k < d → (j + k) % d ≢ j % d
apart d j k pos some_way less e =
    let r = j % d in
    let sum : (r + k) % d ≡ r = mod-add-mod j d k ∙ e in
    elim (Bool-cases (ltb (r + k) d)) [
      | inl stays ↦ let lt : r + k < d = ground arith in omega (arith, sum, mod-eq_of_lt lt)
      | inr wraps ↦
          let low = mod-lt j pos in
          let less_again : r + k - d < d = omega arith in
          let around : (d + (r + k - d)) ≡ r + k = ground arith in
          omega (
            arith,
            sum,
            ap (λ x. x % d) around,
            add-mod_left d (r + k - d),
            mod-eq_of_lt less_again,
          )
    ]

-- The controller has filled every entry before position `h`.
pub record WritesAt (d : ℕ) (q : Queue) (h : ℕ) : Type 0 where
  pub depth_lem : q.depth ≡ d
  pub at_tail : q.cq_tail ≡ h % d
  pub at_phase : q.cq_phase ≡ (h / d) % 2

module _ (d : ℕ) where
  advance_tail-WritesAt :
      (q : Queue) (h : ℕ)
      → 0 < d
      → d < u16
      → WritesAt d q h
      → WritesAt d (advance_tail (advance_head q)) (h + 1)
  unfolding advance_tail
  advance_tail-WritesAt q h pos small v =
      let next = turn d h q.cq_tail q.cq_phase pos small v.at_tail v.at_phase in
      record {
        depth_lem = v.depth_lem;
        at_tail = rw v.depth_lem next.0;
        at_phase = rw v.depth_lem next.1;
      }

encode_completion-AreBytes : (c : Completion) → AreBytes (encode_completion c)
unfolding encode_completion
encode_completion-AreBytes c =
    let end = replicate 40 0 in
    let end_lem = replicate_zero-AreBytes 40 in
    let from_flags = le_bytes 2 c.flags ++ end in
    let from_flags_lem =
      append-AreBytes (le_bytes 2 c.flags) end (le_bytes-AreBytes 2 c.flags) end_lem in
    let from_status = le_bytes 2 c.status ++ from_flags in
    let from_status_lem =
      append-AreBytes (le_bytes 2 c.status) from_flags (le_bytes-AreBytes 2 c.status)
        from_flags_lem in
    let from_cid = le_bytes 2 c.cid ++ from_status in
    let from_cid_lem =
      append-AreBytes (le_bytes 2 c.cid) from_status (le_bytes-AreBytes 2 c.cid) from_status_lem in
    let from_sq_head = le_bytes 2 c.sq_head ++ from_cid in
    let from_sq_head_lem =
      append-AreBytes (le_bytes 2 c.sq_head) from_cid (le_bytes-AreBytes 2 c.sq_head)
        from_cid_lem in
    let from_user_data = le_bytes 8 c.user_data ++ from_sq_head in
    let from_user_data_lem =
      append-AreBytes (le_bytes 8 c.user_data) from_sq_head (le_bytes-AreBytes 8 c.user_data)
        from_sq_head_lem in
    append-AreBytes (le_bytes 8 c.result) from_user_data (le_bytes-AreBytes 8 c.result)
      from_user_data_lem

-- What the driver reads from the entry with an index.
abbrev pub entry : (H : Host) → H.World → ℕ → ℕ → Completion
entry H w base index =
    decode_completion (H.dma_read w (base + index * completion_size) completion_size)

get-set_queue : (s : State) (qid : ℕ) (q : Queue) → get_queue (set_queue s qid q) qid ≡ q
get-set_queue s qid q = elim (Bool-cases (qid == 0)) [
  | inl admin ↦ rw admin refl
  | inr io ↦ rw io refl
]

module _ (H : Host) (L : IsLawful H) where
  -- The write of a completion, at an index where it neither leaves the address space nor the RAM.
  module _ (d : ℕ) (w : H.World) (q : Queue) (c : Completion) (low : q.cq_tail < d)
      (fits : q.cq_addr + d * completion_size ≤ u64)
      (ram : H.is_ram (q.cq_addr + q.cq_tail * completion_size) completion_size ≡ true) where
    post-written :
        post H w q c ≡ H.dma_write w (q.cq_addr + q.cq_tail * completion_size) (encode_completion c)
    unfolding post
    post-written =
        let same : (q.cq_addr + q.cq_tail * completion_size) % u64
            ≡ q.cq_addr + q.cq_tail * completion_size =
          mod-eq_of_lt (omega arith) in
        ap (λ a. H.dma_write w a (encode_completion c)) same

    entry-post_self : CompletionFits c → entry H (post H w q c) q.cq_addr q.cq_tail ≡ c
    unfolding encode_completion
    entry-post_self sized = rw post-written (
        ap (λ bs. decode_completion bs)
          (L.dma_read-dma_write w (q.cq_addr + q.cq_tail * completion_size) (encode_completion c)
            (encode_completion-AreBytes c) ram)
        ∙ decode-encode_completion c sized)

    entry-post_ne :
        (i : ℕ) → i ≢ q.cq_tail → entry H (post H w q c) q.cq_addr i ≡ entry H w q.cq_addr i
    unfolding encode_completion
    entry-post_ne i other =
        let beside : (q.cq_addr + q.cq_tail * completion_size + completion_size
              ≤ q.cq_addr + i * completion_size)
            ⊎ (q.cq_addr + i * completion_size + completion_size
                ≤ q.cq_addr + q.cq_tail * completion_size) =
          ground (arith, other) in
        rw post-written (
          ap (λ bs. decode_completion bs)
            (L.dma_read-dma_write_ne w (q.cq_addr + q.cq_tail * completion_size)
              (encode_completion c) (q.cq_addr + i * completion_size) completion_size ram beside))

  -- On a ring that lies in RAM and holds the phases of the last lap before position `h`, with the
  -- controller at that position, completing a command moves the controller on by one position,
  -- leaves the phases of the last lap before the new one, and puts at the old position's index the
  -- completion that the driver then decodes: the command's identifier and user data, and the result
  -- and status of its execution. The completion's fields are within their widths.
  pub complete-Tagged :
      (d lo h qid : ℕ) (cmd : Command) (e : Execute.Executed H)
      → 0 < d
      → d < u16
      → lo + d ≡ h
      → WritesAt d (get_queue e.state qid) h
      → Tagged d (entry H e.world (get_queue e.state qid).cq_addr) lo h
      → (get_queue e.state qid).cq_addr + d * completion_size ≤ u64
      → ((i : ℕ)
          → i < d
          → H.is_ram ((get_queue e.state qid).cq_addr + i * completion_size) completion_size ≡ true)
      → CompletionFits (completion_of (advance_head (get_queue e.state qid)) cmd e.result e.status)
      → WritesAt d (get_queue (complete H qid cmd e).0 qid) (h + 1)
        × Tagged d
            (entry H (complete H qid cmd e).1 (get_queue e.state qid).cq_addr)
            (lo + 1)
            (h + 1)
        × (entry H (complete H qid cmd e).1 (get_queue e.state qid).cq_addr (h % d)
            ≡ completion_of (advance_head (get_queue e.state qid)) cmd e.result e.status)
  unfolding complete
  complete-Tagged d lo h qid cmd e pos small lap v t fits ram sized =
      let q = advance_head (get_queue e.state qid) in
      let c = completion_of q cmd e.result e.status in
      let ahead = advance_tail-WritesAt d (get_queue e.state qid) h pos small v in
      let low : q.cq_tail < d = omega (arith, v.at_tail, mod-lt h pos) in
      let self = entry-post_self d e.world q c low fits (ram q.cq_tail low) sized in
      let at_tail : entry H (post H e.world q c) q.cq_addr (h % d) ≡ c =
        ap (λ i. entry H (post H e.world q c) q.cq_addr i) (sym v.at_tail) ∙ self in
      (
        subst (λ q'. WritesAt d q' (h + 1)) (sym (get-set_queue e.state qid (advance_tail q)))
            ahead,
        λ j from below. elim (Bool-cases (j == h)) [
          | inl newest ↦
              let is_h : j ≡ h = ground arith in
              rw is_h (ap (λ (x : Completion). x.flags % 2) at_tail ∙ omega (arith, v.at_phase))
          | inr older ↦
              let before : j < h = ground arith in
              let there : j + (h - j) ≡ h = omega arith in
              let other : j % d ≢ q.cq_tail = λ same.
                apart d j (h - j) pos (omega arith) (omega arith)
                  (ap (λ x. x % d) there ∙ sym v.at_tail ∙ sym same) in
              ap (λ (x : Completion). x.flags % 2)
                (entry-post_ne d e.world q c low fits (ram q.cq_tail low) (j % d) other)
              ∙ t j (omega arith) before
        ],
        at_tail,
      )

  -- On a ring that lies in RAM and holds the phases of the last lap before position `h`, with the
  -- controller and the driver at that position and a completion whose fields are within their
  -- widths: once the controller has completed a command, the handler of an I/O interrupt reads
  -- exactly one new entry from the guest's memory, the completion just made, handles it, rings the
  -- doorbell once and returns; two rounds are enough.
  pub complete-io_irq :
      (d lo h qid fuel : ℕ) (cmd : Command) (e : Execute.Executed H) (driver : DriverQueue)
      → 0 < d
      → d < u16
      → lo + d ≡ h
      → WritesAt d (get_queue e.state qid) h
      → Tagged d (entry H e.world (get_queue e.state qid).cq_addr) lo h
      → (get_queue e.state qid).cq_addr + d * completion_size ≤ u64
      → ((i : ℕ)
          → i < d
          → H.is_ram ((get_queue e.state qid).cq_addr + i * completion_size) completion_size ≡ true)
      → CompletionFits (completion_of (advance_head (get_queue e.state qid)) cmd e.result e.status)
      → StandsAt d driver h
      → 1 < fuel
      → io_irq fuel (entry H (complete H qid cmd e).1 (get_queue e.state qid).cq_addr) driver ≡ (
          serve take_io driver
            (completion_of (advance_head (get_queue e.state qid)) cmd e.result e.status ∷ [])
          >>= λ r. ok (ring_cq_head (with_count 1 r)))
  complete-io_irq d lo h qid fuel cmd e driver pos small lap v t fits ram sized stands more =
      let base = (get_queue e.state qid).cq_addr in
      let world = (complete H qid cmd e).1 in
      let filled = complete-Tagged d lo h qid cmd e pos small lap v t fits ram sized in
      io_irq-Tagged d (entry H world base) 1 h (lo + 1) fuel driver pos small more (omega arith)
        (omega arith) (omega arith) filled.1 stands
      ∙ ap
          (λ (c : Completion).
            serve take_io driver (c ∷ []) >>= λ r. ok (ring_cq_head (with_count 1 r)))
          filled.2
