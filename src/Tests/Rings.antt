-- ===== src/Tests/Rings.antt =====
-- The ring of completions between the controller and the driver at a concrete input: two entries in
-- a zeroed memory, and the first I/O command.
use openflash_controller_lab.Base.{◌≡◌, refl, true, [], ◌∷◌, none, ok, ◌>>=◌, arith, ◌⊎◌, inl, inr}
use openflash_controller_lab.Abi.Struct.{Command, Completion, decode_completion}
use openflash_controller_lab.Abi.Layout.{CompletionFits}
use openflash_controller_lab.Platform.Memory.{World, memory_host, memory_host-IsLawful}
use openflash_controller_lab.Device.State.{State, get_queue}
use openflash_controller_lab.Device.Execute
use openflash_controller_lab.Device.Doorbell.{completion_of, advance_head, complete}
use openflash_controller_lab.Driver.Completion.{take_io, io_irq, ring_cq_head}
use openflash_controller_lab.Driver.Drain.{Tagged, serve, with_count}
use openflash_controller_lab.Ring.{WritesAt, entry, complete-Tagged, complete-io_irq}
use openflash_controller_lab.Tests.Fixture.{cq, ring, disk, command}
use openflash_controller_lab.Tests.Driver.{busy_slot, queue, queue-StandsAt}

abbrev zeroed : World
zeroed = record { memory = λ a. 0; file = none; enabled = true; notified = [] }

abbrev two_entries : State
two_entries = record disk { io = record ring { depth = 2 } }

abbrev first : Command
first = record (command 2) { cid = 1 }

abbrev executed : Execute.Executed memory_host
executed = record { status = 0; result = 1; state = two_entries; world = zeroed }

abbrev posted : Completion
posted = completion_of (advance_head (get_queue two_entries 1)) first 1 0

writes : WritesAt 2 (get_queue two_entries 1) 2
writes = record { depth_lem = refl; at_tail = refl; at_phase = refl }

zeroed-Tagged : Tagged 2 (entry memory_host zeroed cq) 0 2
unfolding decode_completion
zeroed-Tagged j from below =
    let either : (j ≡ 0) ⊎ (j ≡ 1) = ground arith in
    elim either [ inl zeroth ↦ rw zeroth refl | inr other ↦ rw other refl ]

posted-CompletionFits : CompletionFits posted
posted-CompletionFits = record {
  result_fits = omega arith;
  user_data_fits = omega arith;
  sq_head_fits = omega arith;
  cid_fits = omega arith;
  status_fits = omega arith;
  flags_fits = omega arith;
}

complete-Tagged_example :
    WritesAt 2 (get_queue (complete memory_host 1 first executed).0 1) 3
    × Tagged 2 (entry memory_host (complete memory_host 1 first executed).1 cq) 1 3
    × (entry memory_host (complete memory_host 1 first executed).1 cq 0 ≡ posted)
complete-Tagged_example =
    complete-Tagged memory_host memory_host-IsLawful 2 0 2 1 first executed (omega arith)
      (omega arith) refl writes zeroed-Tagged (omega arith) (λ i low. ground arith)
      posted-CompletionFits

complete-io_irq_example :
    io_irq 2 (entry memory_host (complete memory_host 1 first executed).1 cq) (queue busy_slot)
    ≡ (serve take_io (queue busy_slot) (posted ∷ []) >>= λ r. ok (ring_cq_head (with_count 1 r)))
complete-io_irq_example =
    complete-io_irq memory_host memory_host-IsLawful 2 0 2 1 2 first executed (queue busy_slot)
      (omega arith) (omega arith) refl writes zeroed-Tagged (omega arith) (λ i low. ground arith)
      posted-CompletionFits queue-StandsAt (omega arith)
