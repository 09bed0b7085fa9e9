-- ===== src/Tests/Lifecycle.antt =====
-- The driver's life at concrete inputs: a kernel that grants everything, and a controller of eight
-- blocks that answers each admin command.
use openflash_controller_lab.Base.{
  ℕ, ◌+◌, ◌≡◌, refl, Bool, true, false, arith, none, some, List, [], ◌∷◌, ◌==◌, ltb, if◌then◌else◌,
  Outcome, ok, err, Succeeds, Settles, ◌⊎◌,
}
use openflash_controller_lab.Abi.Reg
use openflash_controller_lab.Abi.Struct.{Completion}
use openflash_controller_lab.Driver.Admin
use openflash_controller_lab.Driver.Completion
use openflash_controller_lab.Driver.Setup
use openflash_controller_lab.Driver.IoSetup
use openflash_controller_lab.Driver.Probe
use openflash_controller_lab.Driver.Recovery
use openflash_controller_lab.Driver.State.{Request, fill_slot}
use openflash_controller_lab.Driver.Kernel.{Kernel, Ask, read, Call, did, Sys}
use openflash_controller_lab.Driver.Admin.{
  empty_command, admin_command, advance_cid, start_admin, Reply,
}
use openflash_controller_lab.Driver.Setup.{zeroed, sq_size, cq_size, list_size}
use openflash_controller_lab.Driver.IoSetup.{setup_io_queue, slot_with}
use openflash_controller_lab.Driver.Recovery.{take_interrupts, restart, reset_work}
use openflash_controller_lab.Driver.Probe.{supported_abi, described, probe, remove, new_dev}
use openflash_controller_lab.Driver.Holds.{Holds, start}
use openflash_controller_lab.Driver.Arrival.{Probed, probe-Probed}
use openflash_controller_lab.Driver.Fail.{AllIdle}
use openflash_controller_lab.Driver.Removal.{IsStuck}
use openflash_controller_lab.Driver.Running.{
  io_interrupt, timed_out, run, Reach, here, after, remove-probe,
}

-- The slot of the newest admin command.
abbrev newest_slot : List Call → ℕ
newest_slot [] = 0
newest_slot (did (fill_slot slot cmd) ∷ log) = slot
newest_slot (call ∷ log) = newest_slot log

-- Entry `j` of the admin ring answers command `j + 1`: eight blocks for the first, queue 1 after it.
abbrev pub answers : ℕ → ℕ → Completion
answers slot j = record {
  result = if j == 0 then 8 else 1;
  user_data = 0;
  sq_head = 0;
  cid = j + 1;
  status = 0;
  flags = if ltb slot j then 0 else 1;
}

abbrev nothing_new : ℕ → Completion
nothing_new j = record (answers 0 0) { flags = 0 }

abbrev answer : Ask → ℕ
answer (read register) = if register == Reg.abi_version then supported_abi else 3
answer other = 0

abbrev pub all_idle : List Request → Bool
all_idle [] = true
all_idle (r ∷ rs) = elim r.rq [ none ↦ all_idle rs | some rq ↦ false ]

abbrev pub kernel : Kernel
kernel = record {
  answer = λ a log. answer a;
  dma_alloc = λ size log. some size;
  interrupts = λ log. record { status = 1; cqes = answers (newest_slot log) } ∷ [];
  io_interrupts = λ log. nothing_new ∷ [];
  drained = λ log q. all_idle q.requests;
  indeterminate = 0;
}

abbrev before : Sys
before = record { dev = new_dev 0; log = [] }

probe-Probed_example : Succeeds Probed (probe kernel before)
probe-Probed_example = probe-Probed kernel before start

abbrev code_of : Outcome (ℕ × Sys) → ℕ
code_of (ok (code, s)) = code
code_of (err e) = 1

abbrev pub state_of : {A : Type 0} → Outcome (A × Sys) → Sys
state_of (ok (a, s)) = s
state_of (err e) = before

succeeded : (o : Outcome (ℕ × Sys)) → code_of o ≡ 0 → o ≡ ok (0, state_of o)
succeeded (ok (code, s)) h = rw h refl
succeeded (err e) h = absurd (omega arith)

-- The probe comes back with both queues and the disk of eight blocks.
up : code_of (probe kernel before) ≡ 0
unfolding probe Probe.probe_device Probe.probe_queues Probe.probe_identify Probe.probe_io
    Probe.probe_disk Probe.register_block_device Probe.add_disk Setup.setup_admin_queue
    Setup.admin_sq Setup.admin_cq Setup.admin_vectors Setup.admin_irq Setup.enable_controller
    Setup.publish_admin IoSetup.setup_io_queue IoSetup.io_sq IoSetup.io_cq IoSetup.io_requests
    IoSetup.io_lists IoSetup.io_list IoSetup.io_interrupt IoSetup.io_create Admin.create_io_queue
    Admin.admin_identify Admin.admin_command Admin.take_capacity Admin.created
    Admin.wait_for_completion Admin.end_wait Admin.irqs Admin.irq Admin.start_admin Admin.reply_of
    Completion.drain_admin_cq Completion.drain Completion.take_admin Completion.consume
up = refl

-- A request times out, and an interrupt of each vector finds nothing new.
abbrev s1 : Sys
s1 = state_of (probe kernel before)

abbrev s2 : Sys
s2 = state_of (run kernel timed_out s1)

abbrev s3 : Sys
s3 = state_of (run kernel (io_interrupt nothing_new) s2)

abbrev pub none_failed : {A : Type 0} → Outcome (A × Sys) → Bool
none_failed (ok r) = true
none_failed (err e) = false

pub ran : (o : Outcome (Unit {0} × Sys)) → none_failed o ≡ true → o ≡ ok (tt, state_of o)
ran (ok (u, s)) h = refl
ran (err e) h = cc

timed : none_failed (run kernel timed_out s1) ≡ true
unfolding run Recovery.timeout probe Probe.probe_device Probe.probe_queues Probe.probe_identify
    Probe.probe_io Probe.probe_disk Probe.register_block_device Probe.add_disk
    Setup.setup_admin_queue Setup.admin_sq Setup.admin_cq Setup.admin_vectors Setup.admin_irq
    Setup.enable_controller Setup.publish_admin IoSetup.setup_io_queue IoSetup.io_sq IoSetup.io_cq
    IoSetup.io_requests IoSetup.io_lists IoSetup.io_list IoSetup.io_interrupt IoSetup.io_create
    Admin.create_io_queue Admin.admin_identify Admin.admin_command Admin.take_capacity Admin.created
    Admin.wait_for_completion Admin.end_wait Admin.irqs Admin.irq Admin.start_admin Admin.reply_of
    Completion.drain_admin_cq Completion.drain Completion.take_admin Completion.consume
timed = refl

interrupted : none_failed (run kernel (io_interrupt nothing_new) s2) ≡ true
unfolding run Completion.io_irq Recovery.timeout probe Probe.probe_device Probe.probe_queues
    Probe.probe_identify Probe.probe_io Probe.probe_disk Probe.register_block_device Probe.add_disk
    Setup.setup_admin_queue Setup.admin_sq Setup.admin_cq Setup.admin_vectors Setup.admin_irq
    Setup.enable_controller Setup.publish_admin IoSetup.setup_io_queue IoSetup.io_sq IoSetup.io_cq
    IoSetup.io_requests IoSetup.io_lists IoSetup.io_list IoSetup.io_interrupt IoSetup.io_create
    Admin.create_io_queue Admin.admin_identify Admin.admin_command Admin.take_capacity Admin.created
    Admin.wait_for_completion Admin.end_wait Admin.irqs Admin.irq Admin.start_admin Admin.reply_of
    Completion.drain_admin_cq Completion.drain Completion.take_admin Completion.consume
interrupted = refl

way : Reach kernel s1 s3
way =
    after (io_interrupt nothing_new) (after timed_out here (ran (run kernel timed_out s1) timed))
      (ran (run kernel (io_interrupt nothing_new) s2) interrupted)

remove-probe_example :
    Settles
      (λ r. Holds r.1.log [] × ((s3.dev.nr_queues ≡ 1) ⊎ AllIdle r.1.dev.io.requests))
      (IsStuck kernel s3)
      (remove kernel s3)
remove-probe_example =
    remove-probe kernel before s1 s3 start (succeeded (probe kernel before) up) way
