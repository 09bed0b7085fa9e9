-- ===== src/Driver/Identify.antt =====
-- driver/openflash/openflash_queue.c, openflash_admin_identify.
use openflash_controller_lab.Base.{
  ℕ, ◌<◌, ◌≡◌, ◌≢◌, ◌∙◌, refl, sym, ap, ◌⊎◌, inl, inr, Bool-cases, arith, List, ◌==◌, Succeeds,
}
use openflash_controller_lab.Abi.Opcode
use openflash_controller_lab.Driver.Errno
use openflash_controller_lab.Driver.Kernel.{Kernel, Interrupt, Resource, Dev, Sys}
use openflash_controller_lab.Driver.Holds.{Holds}
use openflash_controller_lab.Driver.Admin.{
  Reply, result, failed, empty_command, admin_command, take_capacity, admin_identify, advance_cid,
}
use openflash_controller_lab.Driver.Waits.{
  IsIdle, Commanded, Replies, admin_command-Commanded, wait_log,
}
use openflash_controller_lab.Driver.Balance.{follow_lem}

-- What identifying leaves behind.
pub record Identified (xs : List Resource) (is : List Interrupt) (cid : ℕ) (s : Sys) (r : ℕ × Sys)
    : Type 0 where
  pub idle : IsIdle xs r.1.dev.admin
  pub others :
      r.1.dev ≡ record s.dev { admin = r.1.dev.admin; capacity_blocks = r.1.dev.capacity_blocks }
  pub held : (ys : List Resource) → Holds s.log ys → Holds r.1.log ys
  pub capacity :
      ((r.0 ≡ 0) × (0 < r.1.dev.capacity_blocks) × Replies is cid (result r.1.dev.capacity_blocks))
      ⊎ ((r.0 ≢ 0) × (r.1.dev.capacity_blocks ≡ s.dev.capacity_blocks))

module _ (xs : List Resource) (is : List Interrupt) (cid : ℕ) (s s' : Sys)
    (c : Commanded xs s s') where
  unchanged : (e : ℕ) → e ≢ 0 → Identified xs is cid s (e, s')
  unchanged e wrong =
      let same = ap (λ (dev : Dev). dev.capacity_blocks) c.others in
      record {
        idle = c.idle;
        others =
            c.others
            ∙ ap (λ n. record s.dev { admin = s'.dev.admin; capacity_blocks = n }) (sym same);
        held = c.held;
        capacity = inr (wrong, same);
      }

  take_capacity-Identified :
      (reply : Reply)
      → Replies is cid reply
      → Succeeds (Identified xs is cid s) (take_capacity reply s')
  unfolding take_capacity
  take_capacity-Identified (failed e) (inl io) =
      unchanged e (λ none_at_all. omega (arith, io, none_at_all))
  take_capacity-Identified (failed e) (inr late) =
      unchanged e (λ none_at_all. omega (arith, late, none_at_all))
  take_capacity-Identified (result v) shown = elim (Bool-cases (v == 0)) [
    | inl nothing ↦ rw nothing (unchanged Errno.enodev (λ h. omega (arith, h)))
    | inr some_blocks ↦ rw some_blocks (record {
      idle = record { below = c.idle.below; small = c.idle.small; owns = c.idle.owns };
      others = ap (λ (dev : Dev). record dev { capacity_blocks = v }) c.others;
      held = c.held;
      capacity = inl (refl, ground arith, shown);
    })
  ]

-- Identifying the controller returns, whatever interrupts arrive. With 0 the device's capacity is
-- not 0 and is the result of a completion in the ring that has the command's identifier and status
-- SUCCESS; with an error the capacity is what it was. Nothing else but the admin queue changes.
pub admin_identify-Identified :
    (k : Kernel) (xs : List Resource) (s : Sys)
    → IsIdle xs s.dev.admin
    → Succeeds
        (Identified xs
          (k.interrupts (wait_log s (empty_command Opcode.identify)))
          (advance_cid s.dev.admin.next_cid)
          s)
        (admin_identify k s)
unfolding admin_identify
admin_identify-Identified k xs s idle =
    let is = k.interrupts (wait_log s (empty_command Opcode.identify)) in
    let cid = advance_cid s.dev.admin.next_cid in
    follow_lem (λ r. Replies is cid r.0 × Commanded xs s r.1 × (cid ≢ 0)) (Identified xs is cid s)
      (admin_command k (empty_command Opcode.identify) s) take_capacity
      (admin_command-Commanded k (empty_command Opcode.identify) xs s idle)
      (λ reply s' (done : Replies is cid reply × Commanded xs s s' × (cid ≢ 0)).
        take_capacity-Identified xs is cid s s' done.1 reply done.0)
