-- ===== src/App/Handover/Late.antt =====
-- The start of a service that comes after its old task has deleted its own queue.
use univr_info_workshop.Common.{
  ==_refl, ℕ, zero, suc, ◌<◌, ◌≡◌, ◌∙◌, refl, ap, sym, true, false, none, some, List, length, ok,
  put, put_same, put_other, arith,
}
use univr_info_workshop.App.Emulator.{Grant}
use univr_info_workshop.App.Handover.{
  World, delete_task, delete_queue, forget_queue, move, run, schedule, HasGiven, IsFree,
}
use univr_info_workshop.App.Handover.Steps.{
  HasDeleted, delete_task_lem, delete_queue_lem, HasRestarted, restart_lem,
}
use univr_info_workshop.App.Handover.Order.{
  is_some, HasHandedOver, other_queue, IsFree-after, old_there, first, second,
}

-- The world without the struct of a queue.
abbrev without : World → ℕ → World
without a q = record a { queues = put a.queues q none }

module _ (w : World) (g : Grant) (name : List ℕ) (self p q : ℕ) (short : length name < 32)
    (given : HasGiven w self p q) (free : IsFree w g) where
  -- Lines 52 and 53 on the old task's own queue.
  both_deleted :
      (a : World) × (delete_task self w ≡ ok a)
      × (delete_queue a ≡ ok (without a q))
      × HasDeleted w a self p
      × IsFree (without a q) g
  both_deleted =
      let (a, ea, gone) = delete_task_lem w self self p given.task given.registry given.own in
      let (y, old) = old_there w g name self p q short given free a gone in
      let empty =
        put_other a.queues q none g.queue (other_queue w g name self p q short given free)
        ∙ ap (λ h. h g.queue) gone.queues
        ∙ free.queue in
      (
        a,
        ea,
        delete_queue_lem a q (ap (λ s. s.queue) gone.service ∙ given.queue) old,
        gone,
        IsFree-after w g name self p q short given free a (without a q) gone refl empty,
      )

  kept_free :
      (a v : World) {r : World}
      → v.queues ≡ put a.queues q none
      → HasRestarted v r g name
      → is_some (r.queues q) ≡ false
  kept_free a v same started =
      let (x, made, represents) = started.made in
      ap is_some (
        ap (λ h. h q) made
        ∙ put_other v.queues g.queue (some x) q
            (λ e. other_queue w g name self p q short given free (sym e))
        ∙ ap (λ h. h q) same
        ∙ put_same a.queues q none)

  new_there : (v : World) {r : World} → HasRestarted v r g name → is_some (r.queues g.queue) ≡ true
  new_there v started =
      let (x, made, represents) = started.made in
      ap is_some (ap (λ h. h g.queue) made ∙ put_same v.queues g.queue (some x))

  -- The start comes before the pointer to the queue is cleared.
  third :
      (w' : World) × (run self g name (schedule 2) w ≡ ok w') × HasHandedOver 2 w w' g name self q
  unfolding run move schedule forget_queue
  third =
      let (a, ea, ec, gone, still) = both_deleted in
      let (r, er, started) =
        restart_lem (without a q) g name short (ap (λ s. s.state) gone.service ∙ given.stopped)
          gone.registry still in
      (
        record r { service = record r.service { queue = none } },
        rw (ea, ec, er) refl,
        record {
          state = started.state;
          task = started.task;
          queue = refl;
          cancelled = started.cancelled ∙ gone.cancelled;
          registry = started.registry;
          named = started.named g.thread ∙ rw (==_refl g.thread) refl;
          old_queue = kept_free a (without a q) refl started;
          new_queue = new_there (without a q) started;
        },
      )

  -- The start comes after the last line.
  last :
      (n : ℕ)
      → (w' : World) × (run self g name (schedule (suc (suc (suc n)))) w ≡ ok w')
        × HasHandedOver (suc (suc (suc n))) w w' g name self q
  unfolding run move schedule forget_queue
  last n =
      let (a, ea, ec, gone, still) = both_deleted in
      let d : World = record (without a q) { service = record a.service { queue = none } } in
      let free_d : IsFree d g = record {
        room = still.room;
        block = still.block;
        thread = still.thread;
        queue = still.queue;
      } in
      let (r, er, started) =
        restart_lem d g name short (ap (λ s. s.state) gone.service ∙ given.stopped) gone.registry
          free_d in
      (
        r,
        rw (ea, ec, er) refl,
        record {
          state = started.state;
          task = started.task;
          queue = started.queue ∙ ground arith;
          cancelled = started.cancelled ∙ gone.cancelled ∙ ground arith;
          registry = started.registry;
          named = started.named g.thread ∙ rw (==_refl g.thread) (ground arith);
          old_queue = kept_free a d refl started ∙ ground arith;
          new_queue = new_there d started ∙ ground arith;
        },
      )

-- The termination semaphore is given before the task and the queue are deleted, so another task may start the
-- stopped service again before the last three lines of `Service_Main`, between them, or behind them.
-- Let what the start is granted be free, and its name have fewer than 32 bytes. At each of these places everything
-- runs to its end without a fault, and the service says that it runs on its new task; but it keeps
-- its new queue only if the start came behind the last line, and else its queue is NULL. A start
-- before the first line has the new thread cancelled and unknown, and not the old one. A start before the queue was
-- deleted has the new queue freed and leaves the old one behind.
pub schedule_lem :
    (w : World) (g : Grant) (name : List ℕ) (self p q i : ℕ)
    → length name < 32
    → HasGiven w self p q
    → IsFree w g
    → (w' : World) × (run self g name (schedule i) w ≡ ok w') × HasHandedOver i w w' g name self q
schedule_lem w g name self p q zero short given free = first w g name self p q short given free
schedule_lem w g name self p q (suc zero) short given free =
    second w g name self p q short given free
schedule_lem w g name self p q (suc (suc zero)) short given free =
    third w g name self p q short given free
schedule_lem w g name self p q (suc (suc (suc n))) short given free =
    last w g name self p q short given free n
