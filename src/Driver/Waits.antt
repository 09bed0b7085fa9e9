-- ===== src/Driver/Waits.antt =====
-- driver/openflash/openflash_queue.c, openflash_admin_command: what an admin command comes back with.
use openflash_controller_lab.Base.{
  ℕ, ◌<◌, ◌≡◌, ◌≢◌, ◌∙◌, refl, ap, ◌⊎◌, inl, inr, Bool, true, false, Bool-cases, arith, List, ◌∷◌,
  ◌==◌, u16, Outcome, ok, err, Succeeds, Succeeds-weaken,
}
use openflash_controller_lab.Abi.Struct.{Command, Completion}
use openflash_controller_lab.Driver.Errno
use openflash_controller_lab.Driver.State.{
  DriverQueue, Event, fill_slot, write_register, wait_admin, synchronize_irq,
}
use openflash_controller_lab.Driver.Completion.{sq_tail_db}
use openflash_controller_lab.Driver.Kernel.{
  Kernel, Interrupt, Resource, Call, did, Dev, Sys, follow, noted,
}
use openflash_controller_lab.Driver.Holds.{Holds, other, noted-Holds, admin_owned}
use openflash_controller_lab.Driver.Admin.{
  irqs, advance_cid, addressed, start_admin, Reply, result, failed, reply_of, end_wait,
  wait_for_irqs, wait_for_completion, admin_command, created, create_command, create_io_queue,
}
use openflash_controller_lab.Driver.Waiting.{Shown, Answered, IsWaiting, irqs-IsWaiting}

-- What a command comes back with: a result is that of a completion with its identifier and status
-- SUCCESS which the ring showed; else it is one of two errors.
abbrev pub Replies : List Interrupt → ℕ → Reply → Type 0
Replies is cid (result v) =
    (c : Completion) × Shown is c × (c.cid ≡ cid) × (c.status ≡ 0) × (c.result ≡ v)
Replies is cid (failed e) = (e ≡ Errno.eio) ⊎ (e ≡ Errno.etimedout)

-- The admin queue between commands.
pub record IsIdle (xs : List Resource) (q : DriverQueue) : Type 0 where
  pub below : q.cq_head < q.depth
  pub small : q.depth < u16
  pub owns : admin_owned q ≡ xs

-- The calls up to the wait.
abbrev pub wait_log : Sys → Command → List Call
wait_log s cmd =
    let q = s.dev.admin in
    did wait_admin
    ∷ did (write_register (sq_tail_db q.qid) (start_admin q).sq_tail)
    ∷ did (fill_slot q.sq_tail (addressed q cmd))
    ∷ s.log

-- What an admin command leaves behind.
pub record Commanded (xs : List Resource) (s s' : Sys) : Type 0 where
  pub idle : IsIdle xs s'.dev.admin
  pub not_pending : s'.dev.admin.admin_pending ≡ false
  pub others : s'.dev ≡ record s.dev { admin = s'.dev.admin }
  pub held : (ys : List Resource) → Holds s.log ys → Holds s'.log ys

excluded : {X : Type 0} (b : Bool) → b ≡ true → (b ≡ false) ⊎ X → X
excluded b yes_b (inl no_b) = cc
excluded b yes_b (inr x) = x

reply_of-Replies :
    (xs : List Resource) (is : List Interrupt) (cid : ℕ) (q : DriverQueue)
    → IsWaiting xs cid (Shown is) q
    → q.admin_done ≡ true
    → Replies is cid (reply_of q)
unfolding reply_of
reply_of-Replies xs is cid q w done = elim (Bool-cases q.admin_error) [
  | inl wrong ↦ rw wrong (inl refl)
  | inr right ↦ elim (Bool-cases (q.admin_status == 0)) [
    | inl success ↦
        let ok_status : q.admin_status ≡ 0 = ground arith in
        rw (right, success) (answer right ok_status (excluded q.admin_done done w.outcome))
    | inr failure ↦ rw (right, failure) (inl refl)
  ]
]
  where
    answer :
        q.admin_error ≡ false
        → q.admin_status ≡ 0
        → (q.admin_error ≡ true) ⊎ Answered (Shown is) q
        → Replies is cid (result q.admin_result)
    answer right success (inl wrong) = cc
    answer right success (inr (c, shown, same, status, value)) =
        (c, shown, same ∙ w.waits_for, status ∙ success, value)

module _ (xs : List Resource) (is : List Interrupt) (cid : ℕ) (s s' : Sys)
    (w : IsWaiting xs cid (Shown is) s'.dev.admin)
    (others : s'.dev ≡ record s.dev { admin = s'.dev.admin })
    (held : (ys : List Resource) → Holds s.log ys → Holds s'.log ys) where
  end_wait-Commanded :
      (done : Bool)
      → s'.dev.admin.admin_done ≡ done
      → Succeeds (λ r. Replies is cid r.0 × Commanded xs s r.1) (end_wait done s')
  unfolding end_wait
  end_wait-Commanded true done = (
    reply_of-Replies xs is cid s'.dev.admin w done,
    record {
      idle = record { below = w.below; small = w.small; owns = w.owns };
      not_pending = excluded s'.dev.admin.admin_done done w.settled;
      others = others;
      held = held;
    },
  )
  end_wait-Commanded false late = (
    inr refl,
    record {
      idle = record { below = w.below; small = w.small; owns = w.owns };
      not_pending = refl;
      others =
          ap (λ (d : Dev). record d { admin = record s'.dev.admin { admin_pending = false } })
            others;
      held = λ ys h. other (synchronize_irq 0) (held ys h);
    },
  )

module _ (k : Kernel) (cmd : Command) (xs : List Resource) (s : Sys) where
  abbrev cid : ℕ
  cid = advance_cid s.dev.admin.next_cid

  starts :
      (is : List Interrupt)
      → IsIdle xs s.dev.admin
      → IsWaiting xs cid (Shown is) (start_admin s.dev.admin)
  unfolding start_admin
  starts is idle = record {
    below = idle.below;
    small = idle.small;
    owns = idle.owns;
    waits_for = refl;
    settled = inl refl;
    outcome = inl refl;
  }

  cid-ne-zero : cid ≢ 0
  cid-ne-zero = ground arith

  after_wait :
      (is : List Interrupt) (o : Outcome (DriverQueue × List Event))
      → Succeeds (λ r. IsWaiting xs cid (Shown is) r.0) o
      → Succeeds
          (λ r. Replies is cid r.0 × Commanded xs s r.1 × (cid ≢ 0))
          (follow
            (λ done. end_wait done)
            (wait_for_irqs o (record {
              dev = record s.dev { admin = start_admin s.dev.admin };
              log = wait_log s cmd;
            })))
  after_wait is (err e) w = w
  after_wait is (ok (q, events)) w =
      let s' : Sys = record {
        dev = record s.dev { admin = q };
        log = noted events (wait_log s cmd);
      } in
      let held = λ (ys : List Resource) (h : Holds s.log ys). noted-Holds events (
        other wait_admin (
          other (write_register (sq_tail_db s.dev.admin.qid) (start_admin s.dev.admin).sq_tail)
            (other (fill_slot s.dev.admin.sq_tail (addressed s.dev.admin cmd)) h))) in
      Succeeds-weaken (λ r. Replies is cid r.0 × Commanded xs s r.1)
        (λ r. Replies is cid r.0 × Commanded xs s r.1 × (cid ≢ 0)) (end_wait q.admin_done s')
        (end_wait-Commanded xs is cid s s' w refl held q.admin_done refl)
        (λ r done. (done.0, done.1, cid-ne-zero))

  -- On an admin queue of 1 to 65535 entries with its head inside the ring, an admin command
  -- returns, whatever interrupts arrive while it waits and whatever the ring then holds. A result
  -- is that of a completion in the ring with the command's identifier, which is never 0, and with
  -- status SUCCESS; else the error is EIO or ETIMEDOUT. Afterwards no completion is awaited, the
  -- queue's memory is as it was, and of the device only the admin queue has changed.
  pub admin_command-Commanded :
      IsIdle xs s.dev.admin
      → Succeeds
          (λ r. Replies (k.interrupts (wait_log s cmd)) cid r.0 × Commanded xs s r.1 × (cid ≢ 0))
          (admin_command k cmd s)
  unfolding admin_command wait_for_completion
  admin_command-Commanded idle =
      let is = k.interrupts (wait_log s cmd) in
      let waiting : IsWaiting xs cid (Shown is) (start_admin s.dev.admin) = starts is idle in
      let ran =
        irqs-IsWaiting xs cid (Shown is) is (start_admin s.dev.admin) (λ c shown. shown) waiting in
      after_wait is (irqs is (start_admin s.dev.admin)) ran

-- What CREATE_IOQ leaves behind, whatever it comes back with.
pub create_io_queue-Commanded :
    (k : Kernel) (xs : List Resource) (s : Sys)
    → IsIdle xs s.dev.admin
    → Succeeds (λ r. Commanded xs s r.1) (create_io_queue k s)
unfolding create_io_queue
create_io_queue-Commanded k xs s idle =
    go (admin_command k (create_command s.dev.io) s)
      (admin_command-Commanded k (create_command s.dev.io) xs s idle)
  where
    go :
        (o : Outcome (Reply × Sys))
        → Succeeds
            (λ r.
              Replies
                (k.interrupts (wait_log s (create_command s.dev.io)))
                (advance_cid s.dev.admin.next_cid)
                r.0
              × Commanded xs s r.1
              × (advance_cid s.dev.admin.next_cid ≢ 0))
            o
        → Succeeds
            (λ r. Commanded xs s r.1)
            (follow (λ reply s'. ok (created s.dev.io.qid reply, s')) o)
    go (ok (reply, s')) h = h.1
    go (err e) h = h
