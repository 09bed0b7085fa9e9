-- ===== src/Driver/IoUnwind.antt =====
-- driver/openflash/openflash_queue.c, openflash_setup_io_queue: what is held after its labels, and after
-- its last steps.
use openflash_controller_lab.Base.{
  ℕ, zero, suc, ◌+◌, ◌≤◌, ◌<◌, ◌≡◌, ◌∙◌, refl, sym, ap, subst, ◌⊎◌, inl, inr, true, arith, none,
  List, [], ◌∷◌, ◌++◌, append_assoc, u16, length, replicate, take, Succeeds,
}
use openflash_controller_lab.Base.Splice.{take-length}
use openflash_controller_lab.Driver.State.{Request, DriverQueue}
use openflash_controller_lab.Driver.Kernel.{
  Kernel, Resource, Call, dma, irq, get, acquire, release, Dev, Sys,
}
use openflash_controller_lab.Driver.Admin.{create_io_queue}
use openflash_controller_lab.Driver.Waits.{IsIdle, Commanded, create_io_queue-Commanded}
use openflash_controller_lab.Driver.Slots.{AllFit}
use openflash_controller_lab.Driver.Io.{IsSafe}
use openflash_controller_lab.Driver.Holds.{
  Since, now, later, Since-trans, Holds, taken, given, lists, io_owned,
}
use openflash_controller_lab.Driver.Balance.{OnReturn, follow_lem, goto_lem, obtain_lem}
use openflash_controller_lab.Driver.Setup.{sq_size, cq_size, list_size}
use openflash_controller_lab.Driver.IoSetup.{
  empty_slot, free_lists_down, free_io_cq, free_sgl, free_io_irq, io_create, io_interrupt,
}
use openflash_controller_lab.Driver.Lists.{Freed, free_lists_down-Freed}

-- The state while the I/O queue is set up, with the admin queue holding `A`.
pub record IsBuilding (d : ℕ) (A : List Resource) (dev : Dev) : Type 0 where
  pub idle : IsIdle A dev.admin
  pub has : dev.has_queues ≡ true
  pub no_disk : dev.gendisk ≡ none
  pub one_queue : dev.nr_queues ≡ 1
  pub depth_lem : dev.io.depth ≡ d
  pub head : dev.io.cq_head ≡ 0

-- Only the admin queue is up.
pub record AdminStill (A : List Resource) (base : List Resource) (s : Sys) : Type 0 where
  pub idle : IsIdle A s.dev.admin
  pub has : s.dev.has_queues ≡ true
  pub no_disk : s.dev.gendisk ≡ none
  pub one_queue : s.dev.nr_queues ≡ 1
  pub held : Holds s.log (A ++ base)

-- Both queues are up.
pub record BothUp (A : List Resource) (base : List Resource) (s : Sys) : Type 0 where
  pub idle : IsIdle A s.dev.admin
  pub has : s.dev.has_queues ≡ true
  pub no_disk : s.dev.gendisk ≡ none
  pub two_queues : s.dev.nr_queues ≡ 2
  pub safe : IsSafe (io_owned s.dev.io) s.dev.io
  pub held : Holds s.log (io_owned s.dev.io ++ (A ++ base))

pub still :
    {d : ℕ} {A base : List Resource} (s : Sys)
    → IsBuilding d A s.dev
    → Holds s.log (A ++ base)
    → AdminStill A base s
still s v h = record {
  idle = v.idle;
  has = v.has;
  no_disk = v.no_disk;
  one_queue = v.one_queue;
  held = h;
}

pub AllFit-empty : (n : ℕ) → AllFit (replicate n empty_slot)
AllFit-empty zero = tt
AllFit-empty (suc n) = (omega arith, AllFit-empty n)

module _ (k : Kernel) (d : ℕ) (pos : 0 < d) (small : d < u16) (A base : List Resource)
    (before : List Call) where
  -- The allocation of a list has failed since `before`, and the variable that nothing was assigned to
  -- holds 0.
  pub record FailedList (log : List Call) : Type 0 where
    pub unassigned : k.indeterminate ≡ 0
    pub at : List Call
    pub during : Since before at
    pub absent : k.dma_alloc list_size at ≡ none
    pub until : Since at log

  pub FailedList-later : {log log' : List Call} → Since log log' → FailedList log → FailedList log'
  FailedList-later h f = record {
    unassigned = f.unassigned;
    at = f.at;
    during = f.during;
    absent = f.absent;
    until = Since-trans f.until h;
  }

  -- Only a failed allocation of a list can come back with 0 and nothing held.
  abbrev pub Built : ℕ × Sys → Type 0
  Built =
      OnReturn (AdminStill A base) (λ s. BothUp A base s ⊎ (FailedList s.log × AdminStill A base s))

  failing : (e : ℕ) (s : Sys) → AdminStill A base s → (e ≡ 0 → FailedList s.log) → Built (e, s)
  failing zero s a unset = inr (unset refl, a)
  failing (suc e) s a unset = a

  pub free_io_cq-Built :
      (e : ℕ) (s : Sys)
      → IsBuilding d A s.dev
      → (e ≡ 0 → FailedList s.log)
      → Holds s.log (
          dma (cq_size s.dev.io) s.dev.io.cq_dma
          ∷ dma (sq_size s.dev.io) s.dev.io.sq_dma
          ∷ (A ++ base))
      → Succeeds Built (free_io_cq e s)
  unfolding free_io_cq
  free_io_cq-Built e s v unset h =
      failing e _ (still _ v (given _ (given _ h)))
        (λ is_zero. FailedList-later (later _ (later _ now)) (unset is_zero))

  pub free_sgl-Built :
      (tag e : ℕ) (s : Sys)
      → IsBuilding d A s.dev
      → (e ≡ 0 → FailedList s.log)
      → tag ≤ length s.dev.io.requests
      → Holds s.log (
          lists (take tag s.dev.io.requests)
          ++ (dma (cq_size s.dev.io) s.dev.io.cq_dma
              ∷ dma (sq_size s.dev.io) s.dev.io.sq_dma
              ∷ (A ++ base)))
      → Succeeds Built (free_sgl tag e s)
  unfolding free_sgl
  free_sgl-Built tag e s v unset low h =
      let rings = λ (dev : Dev).
        dma (cq_size dev.io) dev.io.cq_dma ∷ dma (sq_size dev.io) dev.io.sq_dma ∷ (A ++ base) in
      follow_lem (Freed s (rings s.dev)) Built (free_lists_down tag s) (λ u. free_io_cq e)
        (free_lists_down-Freed tag s (rings s.dev) low h)
        (λ u s' (freed : Freed s (rings s.dev) (u, s')).
          free_io_cq-Built e s' (subst (IsBuilding d A) (sym freed.1) v)
            (λ is_zero. FailedList-later freed.2 (unset is_zero))
            (subst (λ (dev : Dev). Holds s'.log (rings dev)) (sym freed.1) freed.0))

  -- The last step succeeded.
  both :
      (s : Sys)
      → IsBuilding d A s.dev
      → (length s.dev.io.requests + 1 ≡ d)
      → AllFit s.dev.io.requests
      → Holds s.log (
          irq 1
          ∷ (lists s.dev.io.requests
              ++ (dma (cq_size s.dev.io) s.dev.io.cq_dma
                  ∷ dma (sq_size s.dev.io) s.dev.io.sq_dma
                  ∷ (A ++ base))))
      → BothUp A base (record s { dev = record s.dev { nr_queues = 2 } })
  both s v slots fits h = record {
    idle = v.idle;
    has = v.has;
    no_disk = v.no_disk;
    two_queues = refl;
    safe = record {
      valid = record { slots = slots ∙ sym v.depth_lem; fits = fits };
      below = omega (arith, v.head, v.depth_lem);
      small = omega (arith, v.depth_lem);
      owns = refl;
    };
    held =
        subst (λ (xs : List Resource). Holds s.log (irq 1 ∷ xs))
          (sym (
            append_assoc (lists s.dev.io.requests)
              (dma (cq_size s.dev.io) s.dev.io.cq_dma ∷ dma (sq_size s.dev.io) s.dev.io.sq_dma ∷ [])
              (A ++ base)))
          h;
  }

  -- The slots with their lists, and the interrupt; `tag` is past the last slot.
  pub record IsListed (tag : ℕ) (s : Sys) : Type 0 where
    pub building : IsBuilding d A s.dev
    pub past : tag ≡ length s.dev.io.requests
    pub slots : length s.dev.io.requests + 1 ≡ d
    pub fits : AllFit s.dev.io.requests

  abbrev all_lists : Dev → List Resource
  all_lists dev =
      lists dev.io.requests
      ++ (dma (cq_size dev.io) dev.io.cq_dma ∷ dma (sq_size dev.io) dev.io.sq_dma ∷ (A ++ base))

  -- An admin command leaves all this as it is.
  IsListed-after :
      (tag : ℕ) (s s' : Sys)
      → Commanded A s s'
      → IsListed tag s
      → IsListed tag s' × (all_lists s'.dev ≡ all_lists s.dev)
  IsListed-after tag s s' c v =
      let io = ap (λ (dev : Dev). dev.io) c.others in
      (
        record {
          building = record {
            idle = c.idle;
            has = ap (λ (dev : Dev). dev.has_queues) c.others ∙ v.building.has;
            no_disk = ap (λ (dev : Dev). dev.gendisk) c.others ∙ v.building.no_disk;
            one_queue = ap (λ (dev : Dev). dev.nr_queues) c.others ∙ v.building.one_queue;
            depth_lem = ap (λ (q : DriverQueue). q.depth) io ∙ v.building.depth_lem;
            head = ap (λ (q : DriverQueue). q.cq_head) io ∙ v.building.head;
          };
          past = v.past ∙ ap (λ (q : DriverQueue). length q.requests) (sym io);
          slots = ap (λ (q : DriverQueue). length q.requests + 1) io ∙ v.slots;
          fits = subst (λ (q : DriverQueue). AllFit q.requests) (sym io) v.fits;
        },
        ap (λ (dev : Dev). all_lists dev) c.others,
      )

  free_listed :
      (tag e : ℕ) (s : Sys)
      → IsListed tag s
      → (e ≡ 0 → FailedList s.log)
      → Holds s.log (all_lists s.dev)
      → Succeeds Built (free_sgl tag e s)
  free_listed tag e s v unset h =
      let whole : take tag s.dev.io.requests ≡ s.dev.io.requests =
        ap (λ n. take n s.dev.io.requests) v.past ∙ take-length s.dev.io.requests in
      free_sgl-Built tag e s v.building unset (omega (arith, v.past)) (
        subst
          (λ (rs : List Request). Holds s.log (
            lists rs
            ++ (dma (cq_size s.dev.io) s.dev.io.cq_dma
                ∷ dma (sq_size s.dev.io) s.dev.io.sq_dma
                ∷ (A ++ base))))
          (sym whole) h)

  pub unset_suc : {log : List Call} (e : ℕ) → suc e ≡ 0 → FailedList log
  unset_suc e h = absurd (omega arith)

  io_create-Built :
      (tag : ℕ) (s : Sys)
      → IsListed tag s
      → Holds s.log (irq 1 ∷ all_lists s.dev)
      → Succeeds Built (io_create k tag s)
  unfolding io_create free_io_irq
  io_create-Built tag s v h =
      follow_lem (λ r. Commanded A s r.1) Built (create_io_queue k s) _
        (create_io_queue-Commanded k A s v.building.idle)
        (λ ret s' (c : Commanded A s s').
          let (v', same) = IsListed-after tag s s' c v in
          let h' : Holds s'.log (irq 1 ∷ all_lists s'.dev) =
            subst (λ (xs : List Resource). Holds s'.log (irq 1 ∷ xs)) (sym same) (c.held _ h) in
          goto_lem Built (free_io_irq tag) ret _ s'
            (λ e.
              free_listed tag (suc e) (record s' { log = release (irq 1) ∷ s'.log })
                (record {
                  building = v'.building;
                  past = v'.past;
                  slots = v'.slots;
                  fits = v'.fits;
                })
                (unset_suc e) (given (irq 1) h'))
            (inl (both s' v'.building v'.slots v'.fits h')))

  pub io_interrupt-Built :
      (tag : ℕ) (s : Sys)
      → IsListed tag s
      → Holds s.log (all_lists s.dev)
      → Succeeds Built (io_interrupt k tag s)
  unfolding io_interrupt
  io_interrupt-Built tag s v h =
      obtain_lem Built (irq 1) (k.answer (get (irq 1)) s.log) (free_sgl tag) (io_create k tag) s
        (λ e. free_listed tag (suc e) s v (unset_suc e) h)
        (io_create-Built tag (record s { log = acquire (irq 1) ∷ s.log })
          (record { building = v.building; past = v.past; slots = v.slots; fits = v.fits })
          (taken (irq 1) h))
