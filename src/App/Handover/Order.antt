-- ===== src/App/Handover/Order.antt =====
-- What is left of a service that is started again while its old task ends.
use univr_info_workshop.Common.{
  ==_refl, ==_ne, ℕ, ◌<◌, ◌≡◌, ◌≢◌, ◌∙◌, refl, ap, sym, Bool, true, false, Option, none, some, List,
  ◌∷◌, length, ltb, ◌==◌, if◌then◌else◌, ok, put, put_same, put_other,
}
use univr_info_workshop.Service.{ServiceState, ServiceEvent}
use univr_info_workshop.Posix.Queue.{Queue}
use univr_info_workshop.Posix.Task.Self.{has_room}
use univr_info_workshop.Posix.Task.Registry.{IsRegistry}
use univr_info_workshop.Posix.Task.Registry.Names.{names}
use univr_info_workshop.Posix.Task.Registry.Handles.{owned}
use univr_info_workshop.Posix.Task.Life.{get_name_own}
use univr_info_workshop.App.Emulator.{Grant}
use univr_info_workshop.App.Handover.{World, forget_queue, move, run, schedule, HasGiven, IsFree}
use univr_info_workshop.App.Handover.Steps.{
  HasDeleted, delete_task_lem, delete_queue_lem, restart_lem,
}

abbrev pub is_some : {A : Type 0} → Option A → Bool
is_some none = false
is_some (some a) = true

-- After a start that came between the lines, `i` of them before it.
pub record HasHandedOver (i : ℕ) (w w' : World) (g : Grant) (name : List ℕ) (self q : ℕ)
    : Type 0 where
  pub state : w'.service.state ≡ ServiceState.running
  pub task : w'.service.task ≡ some g.block
  pub queue : w'.service.queue ≡ (if ltb i 3 then none else some g.queue)
  pub cancelled : w'.cancelled ≡ (if i == 0 then g.thread else self) ∷ w.cancelled
  pub registry : IsRegistry w'.tasks
  pub named : names w'.tasks g.thread ≡ ok (if i == 0 then none else some name)
  pub old_queue : is_some (w'.queues q) ≡ ltb i 2
  pub new_queue : is_some (w'.queues g.queue) ≡ (if ltb i 2 then false else true)

module _ (w : World) (g : Grant) (name : List ℕ) (self p q : ℕ) (short : length name < 32)
    (given : HasGiven w self p q) (free : IsFree w g) where
  other_block : p ≢ g.block
  other_block e =
      let (stored, (t, h, mine)) = owned w.tasks self p given.registry given.own in
      cc (ap w.tasks.heap e)

  other_thread : self ≢ g.thread
  other_thread e =
      let (stored, (t, h, mine)) = owned w.tasks self p given.registry given.own in
      let mine' = get_name_own self p t w.tasks given.own h in cc (ap (names w.tasks) e)

  pub other_queue : q ≢ g.queue
  other_queue e = let (x, h) = given.there in cc (ap w.queues e)

  -- The start comes first.
  pub first :
      (w' : World) × (run self g name (schedule 0) w ≡ ok w') × HasHandedOver 0 w w' g name self q
  unfolding run move schedule forget_queue
  first =
      let (a, ea, started) = restart_lem w g name short given.stopped given.registry free in
      let (b, eb, gone) =
        delete_task_lem a self g.thread g.block started.task started.registry started.own in
      let (x, made, represents) = started.made in
      let named_b = ap (λ s. s.queue) gone.service ∙ started.queue in
      let there_b = ap (λ h. h g.queue) (gone.queues ∙ made) ∙ put_same w.queues g.queue (some x) in
      let ec = delete_queue_lem b g.queue named_b there_b in
      let (y, old) = given.there in
      (
        record b {
          queues = put b.queues g.queue none;
          service = record b.service { queue = none };
        },
        rw (ea, eb, ec) refl,
        record {
          state = ap (λ s. s.state) gone.service ∙ started.state;
          task = ap (λ s. s.task) gone.service ∙ started.task;
          queue = refl;
          cancelled = gone.cancelled ∙ ap (λ l. g.thread ∷ l) started.cancelled;
          registry = gone.registry;
          named = gone.named g.thread ∙ rw (==_refl g.thread) refl;
          old_queue = ap is_some (
              put_other b.queues g.queue none q (λ e. other_queue (sym e))
              ∙ ap (λ h. h q) (gone.queues ∙ made)
              ∙ put_other w.queues g.queue (some x) q (λ e. other_queue (sym e))
              ∙ old);
          new_queue = ap is_some (put_same b.queues g.queue none);
        },
      )

  -- When the old task is deleted, what is granted is still free.
  pub IsFree-after :
      (a v : World)
      → HasDeleted w a self p
      → v.tasks ≡ a.tasks
      → v.queues g.queue ≡ none
      → IsFree v g
  IsFree-after a v gone same empty = record {
    room = ap (λ t. has_room t.tasks) same ∙ gone.room free.room;
    block = ap (λ t. t.heap g.block) same ∙ gone.heap g.block other_block ∙ free.block;
    thread =
        ap (λ t. names t g.thread) same
        ∙ gone.named g.thread
        ∙ rw (==_ne self g.thread other_thread) free.thread;
    queue = empty;
  }

  pub old_there :
      (a : World) → HasDeleted w a self p → (x : Queue ServiceEvent) × (a.queues q ≡ some x)
  old_there a gone = let (y, old) = given.there in (y, ap (λ h. h q) gone.queues ∙ old)

  -- The start comes between the two deletions.
  pub second :
      (w' : World) × (run self g name (schedule 1) w ≡ ok w') × HasHandedOver 1 w w' g name self q
  unfolding run move schedule forget_queue
  second =
      let (a, ea, gone) = delete_task_lem w self self p given.task given.registry given.own in
      let empty = ap (λ h. h g.queue) gone.queues ∙ free.queue in
      let (b, eb, started) =
        restart_lem a g name short (ap (λ s. s.state) gone.service ∙ given.stopped) gone.registry
          (IsFree-after a a gone refl empty) in
      let (x, made, represents) = started.made in
      let there_b = ap (λ h. h g.queue) made ∙ put_same a.queues g.queue (some x) in
      let ec = delete_queue_lem b g.queue started.queue there_b in
      let (y, old) = old_there a gone in
      (
        record b {
          queues = put b.queues g.queue none;
          service = record b.service { queue = none };
        },
        rw (ea, eb, ec) refl,
        record {
          state = started.state;
          task = started.task;
          queue = refl;
          cancelled = started.cancelled ∙ gone.cancelled;
          registry = started.registry;
          named = started.named g.thread ∙ rw (==_refl g.thread) refl;
          old_queue = ap is_some (
              put_other b.queues g.queue none q (λ e. other_queue (sym e))
              ∙ ap (λ h. h q) made
              ∙ put_other a.queues g.queue (some x) q (λ e. other_queue (sym e))
              ∙ old);
          new_queue = ap is_some (put_same b.queues g.queue none);
        },
      )
