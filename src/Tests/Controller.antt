-- ===== src/Tests/Controller.antt =====
-- The layouts, the commands and the registers.
use openflash_controller_lab.Base.{
  ℕ, ◌+◌, ◌*◌, ◌≡◌, refl, inl, true, false, none, arith, ok, List, [], ◌∷◌, ◌++◌, get_or, ◌%◌, ◌≤◌,
  length, replicate, leb, ltb, ◌&&◌, if◌then◌else◌, ◌>>=◌, ◌^◌, ◌-◌,
}
use openflash_controller_lab.Base.Splice.{range, splice}
use openflash_controller_lab.Abi.Struct.{
  Command, Completion, decode_command, encode_command, decode_completion, encode_completion,
  decode_sgl_desc, encode_sgl_desc,
}
use openflash_controller_lab.Abi.Layout.{decode-encode_command, decode-encode_completion}
use openflash_controller_lab.Abi.StatusCode
use openflash_controller_lab.Abi.Reg
use openflash_controller_lab.Platform.Memory.{World, memory_host, memory_host-IsLawful}
use openflash_controller_lab.Device.State.{State, block_size, zero_queue, reset}
use openflash_controller_lab.Device.Transfer.{
  transfer, sgl_loop, dma_move, store_bytes, read_desc, rejects_segment,
}
use openflash_controller_lab.Device.Scatter.{gather, transfer-gather}
use openflash_controller_lab.Device.Execute.{
  Executed, execute, run_data, finish, flush, persist, write_result,
}
use openflash_controller_lab.Device.Realize.{blank, realize, ready}
use openflash_controller_lab.Device.Mmio.{mmio_read, mmio_write}
use openflash_controller_lab.Device.Invariant.{IsValid, Ends, execute-Ends}
use openflash_controller_lab.Device.Contents.{
  IsData, IsPlain, block, payload, written, execute-write,
}
use openflash_controller_lab.Device.Store.{write_blocks, discard_blocks, write-read}
use openflash_controller_lab.Device.Wrap.{execute_range, execute-far}
use openflash_controller_lab.Device.Registers.{sq_address, mmio_write-Returns, Returns}
use openflash_controller_lab.Device.Durable.{realize-IsValid, flush_durable, fua_durable, Restores}
use openflash_controller_lab.Tests.Fixture.{
  disk, backed, image, command, guest, disk-IsValid, backed-IsValid, command-CommandFits,
  command-InRange, command-IsPlain, backed-InRange,
}

decode-encode_command_example : decode_command (encode_command (command 2)) ≡ command 2
decode-encode_command_example =
    decode-encode_command (command 2) (command-CommandFits 2 (omega arith))

abbrev posted : Completion
posted = record { result = 16384; user_data = 0xcafe; sq_head = 1; cid = 7; status = 0; flags = 1 }

decode-encode_completion_example : decode_completion (encode_completion posted) ≡ posted
decode-encode_completion_example = decode-encode_completion posted (omega arith)

execute-Ends_example :
    Ends memory_host disk (command 2) (execute memory_host disk (guest (command 2)) (command 2))
execute-Ends_example =
    execute-Ends memory_host memory_host-IsLawful disk (guest (command 2)) (command 2) disk-IsValid
      (command-CommandFits 2 (omega arith))

write_blocks_example :
    (e : Executed memory_host) × (execute memory_host disk (guest (command 2)) (command 2) ≡ ok e)
    × ((i : ℕ)
        → block e.state i ≡ (
            if leb 1 i && ltb i 2
            then range
                (payload memory_host (guest (command 2)) (command 2))
                ((i - 1) * block_size)
                block_size
            else block disk i))
write_blocks_example =
    write_blocks memory_host memory_host-IsLawful disk (guest (command 2)) (command 2)
      (command-InRange 2) refl (command-IsPlain 2)

discard_blocks_example :
    (e : Executed memory_host) × (execute memory_host disk (guest (command 4)) (command 4) ≡ ok e)
    × (e.status ≡ StatusCode.success)
    × ((i : ℕ)
        → block e.state i ≡ (if leb 1 i && ltb i 2 then replicate block_size 0 else block disk i))
discard_blocks_example =
    discard_blocks memory_host memory_host-IsLawful disk (guest (command 4)) (command 4)
      (command-InRange 4) refl

write-read_example :
    (e : Executed memory_host) × (f : Executed memory_host) × (execute memory_host disk
        (guest (command 2))
        (command 2)
      ≡ ok e)
    × (execute memory_host e.state e.world (command 1) ≡ ok f)
    × (f.status ≡ StatusCode.success)
    × (memory_host.dma_read f.world 0x30000 (1 * block_size)
        ≡ payload memory_host (guest (command 2)) (command 2))
write-read_example =
    write-read memory_host memory_host-IsLawful disk (guest (command 2)) (command 2) (command 1)
      (command-InRange 2) refl (command-IsPlain 2) refl (command-IsPlain 1) refl refl refl

abbrev beyond : Command
beyond = record (command 1) { lba = 2 }

beyond-IsData : IsData beyond
beyond-IsData = omega arith

execute_range_example : execute memory_host disk (guest beyond) beyond ≡ (
    if ltb 8192 ((2 + 1) * block_size)
    then ok (finish memory_host StatusCode.lba_range 0 disk (guest beyond))
    else run_data memory_host disk (guest beyond) beyond)
execute_range_example =
    execute_range memory_host disk (guest beyond) beyond beyond-IsData (omega arith) (omega arith)
      (omega arith)

execute-far_example :
    execute memory_host disk (guest (command 4)) (record (command 4) { lba = 1 + 2 ^ 52 })
    ≡ execute memory_host disk (guest (command 4)) (command 4)
execute-far_example = execute-far memory_host disk (guest (command 4)) (command 4)

sq_address_example :
    (s' : State) × ((mmio_write memory_host 1 disk (guest beyond) Reg.admin_sq_lo 0x12345000
        >>= λ r. mmio_write memory_host 1 r.0 r.1 Reg.admin_sq_hi 2)
      ≡ ok (s', guest beyond))
    × (s'.admin.sq_addr ≡ 0x212345000)
    × (mmio_read s' Reg.admin_sq_lo ≡ 0x12345000)
    × (mmio_read s' Reg.admin_sq_hi ≡ 2)
sq_address_example =
    sq_address memory_host 1 disk (guest beyond) 0x12345000 2 (omega arith) (omega arith)

mmio_write-Returns_example :
    Returns memory_host memory_host-IsLawful 4098
      (mmio_write memory_host 4098 disk (guest (command 0x80)) 0x1000 1)
mmio_write-Returns_example =
    mmio_write-Returns memory_host memory_host-IsLawful 4098 disk (guest (command 0x80)) 0x1000 1
      (omega arith) disk-IsValid (omega arith) (inl (omega arith))

abbrev small : State
small = record (blank 4096 none) {
  admin = record zero_queue { cq_phase = 1 };
  storage = replicate 4096 0;
}

small_ready : realize memory_host false (blank 4096 none) (guest beyond) ≡ ready small
unfolding realize reset
small_ready = refl

realize-IsValid_example : IsValid small × (small.capacity ≡ 4096)
realize-IsValid_example =
    realize-IsValid memory_host false 4096 none (guest beyond) small (omega arith) small_ready

abbrev flushed : Executed memory_host
flushed = flush memory_host backed (guest (command 3))

flush_runs : execute memory_host backed (guest (command 3)) (command 3) ≡ ok flushed
unfolding execute
flush_runs = refl

flush_succeeds : flushed.status ≡ StatusCode.success
unfolding flush persist
flush_succeeds = refl

flush_durable_example :
    (flushed.state ≡ backed) × Restores memory_host flushed.world image 8192 (replicate 8192 0)
flush_durable_example =
    flush_durable memory_host memory_host-IsLawful backed (guest (command 3)) (command 3) image
      flushed backed-IsValid refl refl flush_runs flush_succeeds

abbrev fua_write : Command
fua_write = record (command 2) { flags = 1 }

fua_write-IsPlain : IsPlain fua_write
fua_write-IsPlain = record { no_list = refl; buffer = omega arith }

abbrev fua_written : Executed memory_host
fua_written = write_result memory_host backed fua_write (
  true,
  (written memory_host memory_host-IsLawful backed (guest fua_write) fua_write
      (backed-InRange 2)).storage,
  guest fua_write,
)

fua_runs : execute memory_host backed (guest fua_write) fua_write ≡ ok fua_written
fua_runs =
    execute-write memory_host memory_host-IsLawful backed (guest fua_write) fua_write
      (backed-InRange 2) refl fua_write-IsPlain

fua_succeeds : fua_written.status ≡ StatusCode.success
unfolding write_result persist
fua_succeeds = refl

fua_durable_example : Restores memory_host fua_written.world image 8192 fua_written.state.storage
fua_durable_example =
    fua_durable memory_host memory_host-IsLawful backed (guest fua_write) fua_write image
      fua_written backed-IsValid (omega arith) refl refl refl fua_runs fua_succeeds

-- A list of two entries, of one byte and of two.
abbrev listed : World
listed = record (guest beyond) {
  memory = λ a.
      if leb 0x30000 a && ltb a 0x30020
      then get_or
          (encode_sgl_desc (record { addr = 0x40000; length = 1; reserved = 0 })
            ++ encode_sgl_desc (record { addr = 0x50000; length = 2; reserved = 0 }))
          (a - 0x30000) 0
      else a % 7;
}

abbrev sgl_write : Command
sgl_write = record (command 2) { flags = 2; control = 2 }

abbrev before : List ℕ
before = 9 ∷ 9 ∷ 9 ∷ 9 ∷ []

abbrev after : List ℕ
after = 9 ∷ 1 ∷ 3 ∷ 4 ∷ []

sgl_runs : transfer memory_host before listed sgl_write 1 3 true ≡ ok (true, after, listed)
unfolding transfer sgl_loop dma_move store_bytes read_desc rejects_segment decode_sgl_desc
    encode_sgl_desc
sgl_runs = refl

transfer-gather_example :
    (2 ≤ 16)
    × (length (gather memory_host 2 listed 0x30000 0) ≡ 3)
    × (after ≡ splice before 1 (gather memory_host 2 listed 0x30000 0))
    × (listed ≡ listed)
transfer-gather_example =
    transfer-gather memory_host memory_host-IsLawful before after listed listed sgl_write 1 3 refl
      (omega arith) (omega arith) sgl_runs
