-- ===== src/Driver/Fua.antt =====
-- driver/openflash/openflash_core.c, openflash_queue_rq: what becomes of the flag for forced unit
-- access between `cmd->flags |= OPENFLASH_CMD_F_FUA` and `cmd->flags = OPENFLASH_CMD_F_SGL`.
use openflash_controller_lab.Base.{ℕ, ◌≡◌, ◌==◌, refl, true, false, List, ◌∷◌, ok, length, arith}
use openflash_controller_lab.Abi.Struct.{Command, has_fua, has_sgl}
use openflash_controller_lab.Driver.State.{
  sts_ok, Request, DriverQueue, Direction, Event, fill_slot,
}
use openflash_controller_lab.Driver.Request.{BlkRequest, Queued, with_list, publish, queue_rq}
use openflash_controller_lab.Driver.Accepted.{Accepts, queue_rq-Accepts}

module _ (capabilities : ℕ) (q : DriverQueue) (rq : BlkRequest) (request : Request) (opcode : ℕ)
    (dir : Direction) (segments : List (ℕ × ℕ)) where
  -- A request with a transfer that is accepted, FUA set or not, goes out as a command whose flags
  -- name the list and do not name FUA.
  pub queue_rq-has_fua :
      Accepts capabilities q rq request opcode dir segments
      → (out : Queued) × (cmd : Command) × (rest : List Event) × (queue_rq capabilities q rq
          ≡ ok out)
        × (out.status ≡ sts_ok)
        × (out.events ≡ fill_slot q.sq_tail cmd ∷ rest)
        × (has_fua cmd ≡ false)
        × (has_sgl cmd ≡ true)
  unfolding publish with_list
  queue_rq-has_fua a =
      let nonzero : (length segments == 0) ≡ false = ground (arith, a.some_segments) in
      (
        _,
        _,
        _,
        queue_rq-Accepts capabilities q rq request opcode dir segments a,
        refl,
        refl,
        rw nonzero refl,
        rw nonzero refl,
      )
