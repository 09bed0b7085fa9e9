-- ===== src/Device/Progress.antt =====
-- `openflash_process_sq`: the doorbells it serves.
use openflash_controller_lab.Base.{
  ℕ, ◌≤◌, ◌<◌, ◌≡◌, ◌⊎◌, refl, inl, inr, true, false, arith, Outcome, ok, Bool-cases, leb,
}
use openflash_controller_lab.Platform.{Host, IsLawful}
use openflash_controller_lab.Device.State.{State, get_queue, max_queues}
use openflash_controller_lab.Device.Doorbell.{ignores_doorbell, interrupt, process_sq}
use openflash_controller_lab.Device.Invariant.{IsValid}
use openflash_controller_lab.Device.Drained.{
  NoCreate, NoCreate-admin, take_entries, to_take, process_loop_any,
}

module _ (H : Host) (L : IsLawful H) where
  -- A doorbell has been served: the handler returned, in a well-formed state. Either the guards sent
  -- the doorbell away and nothing has changed, or exactly the entries up to the tail that was rung have
  -- been taken, and the interrupt follows them.
  pub record Served (qid tail : ℕ) (s : State) (w : H.World) (r : Outcome (State × H.World))
      : Type 0 where
    pub state : State
    pub world : H.World
    pub returned : r ≡ ok (state, world)
    pub valid : IsValid state
    pub drained :
        (ignores_doorbell s qid tail ≡ true) × (state ≡ s) × (world ≡ w)
        ⊎ (ignores_doorbell s qid tail ≡ false)
          × ((get_queue state qid).sq_head ≡ tail)
          × ((before : H.World) × (take_entries H L
                  (to_take H L (get_queue s qid).depth (get_queue s qid).sq_head tail)
                  qid
                  s
                  w
                ≡ ok (state, before))
              × (world ≡ interrupt H qid state before))

  heard :
      (s : State) (qid tail : ℕ)
      → ignores_doorbell s qid tail ≡ false
      → tail < (get_queue s qid).depth
  unfolding ignores_doorbell
  heard s qid tail e = ground arith

  depth_small : (s : State) (qid : ℕ) → IsValid s → (get_queue s qid).depth ≤ 4096
  depth_small s qid v = ground arith

  process_sq-Served :
      (fuel qid tail : ℕ) (s : State) (w : H.World)
      → qid < 2
      → IsValid s
      → 4098 ≤ fuel
      → NoCreate H L fuel qid tail s w
      → Served qid tail s w (process_sq H fuel qid tail s w)
  unfolding process_sq
  process_sq-Served fuel qid tail s w q v f k =
      let inside : leb max_queues qid ≡ false = ground arith in
      elim (Bool-cases (ignores_doorbell s qid tail)) [
        | inl off ↦ record {
          state = s;
          world = w;
          returned = rw (inside, off);
          valid = v;
          drained = inl (off, refl, refl);
        }
        | inr on ↦
            let d =
              process_loop_any H L fuel qid tail s w v (heard s qid tail on) (depth_small s qid v) f
                k in
            record {
              state = d.state;
              world = interrupt H qid d.state d.world;
              returned = rw (inside, on, d.returned);
              valid = d.valid;
              drained = inr (on, d.at_tail, (d.world, d.entries, refl));
            }
      ]

  -- A doorbell of the admin queue always returns, whatever commands the guest has put in the ring:
  -- 4098 rounds are enough, the state stays well formed, and either the guards sent the doorbell away
  -- and nothing has changed, neither the state nor the world, or exactly the entries from the head up to
  -- the tail have been taken, each once and in order (after the one at a head outside the ring, if a
  -- smaller ADMIN_QSIZE has left it there), and then the interrupt is raised if MSI-X is enabled.
  pub process_sq-admin :
      (fuel tail : ℕ) (s : State) (w : H.World)
      → IsValid s
      → 4098 ≤ fuel
      → Served 0 tail s w (process_sq H fuel 0 tail s w)
  process_sq-admin fuel tail s w v f =
      process_sq-Served fuel 0 tail s w (omega arith) v f (NoCreate-admin H L fuel tail s w)

  -- A doorbell of the I/O queue returns too, in the same way, as long as none of the commands that
  -- the loop takes is a CREATE_IOQ.
  pub process_sq-io :
      (fuel tail : ℕ) (s : State) (w : H.World)
      → IsValid s
      → 4098 ≤ fuel
      → NoCreate H L fuel 1 tail s w
      → Served 1 tail s w (process_sq H fuel 1 tail s w)
  process_sq-io fuel tail s w v f k = process_sq-Served fuel 1 tail s w (omega arith) v f k
