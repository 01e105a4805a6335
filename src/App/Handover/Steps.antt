-- ===== src/App/Handover/Steps.antt =====
-- What each of the moves of Handover does.
use univr_info_workshop.Common.{
  ℕ, ◌<◌, ◌≡◌, ◌≢◌, ◌∙◌, refl, ap, true, none, some, List, [], ◌∷◌, length, ◌==◌, if◌then◌else◌, ok,
  put,
}
use univr_info_workshop.Service.{ServiceState, ServiceEvent}
use univr_info_workshop.Posix.Queue.{Queue}
use univr_info_workshop.Posix.Queue.Refine.{Represents}
use univr_info_workshop.Posix.Task.{get_self}
use univr_info_workshop.Posix.Task.Self.{has_room}
use univr_info_workshop.Posix.Task.Registry.{IsRegistry}
use univr_info_workshop.Posix.Task.Registry.Names.{names}
use univr_info_workshop.Posix.Task.Registry.Handles.{delete_handle_lem}
use univr_info_workshop.App.Emulator.{Grant, start_granted_lem}
use univr_info_workshop.App.Handover.{World, delete_task, free_queue, delete_queue, restart, IsFree}

-- The task on the thread `j` was deleted by its handle `p`.
pub record HasDeleted (w w' : World) (j p : ℕ) : Type 0 where
  pub service : w'.service ≡ w.service
  pub queues : w'.queues ≡ w.queues
  pub cancelled : w'.cancelled ≡ j ∷ w.cancelled
  pub registry : IsRegistry w'.tasks
  pub named : (i : ℕ) → names w'.tasks i ≡ (if j == i then ok none else names w.tasks i)
  pub room : has_room w.tasks.tasks ≡ true → has_room w'.tasks.tasks ≡ true
  pub heap : (b : ℕ) → p ≢ b → w'.tasks.heap b ≡ w.tasks.heap b

pub delete_task_lem :
    (w : World) (self j p : ℕ)
    → w.service.task ≡ some p
    → IsRegistry w.tasks
    → get_self j w.tasks ≡ ok (some p)
    → (w' : World) × (delete_task self w ≡ ok w') × HasDeleted w w' j p
unfolding delete_task
delete_task_lem w self j p named reg found =
    let (st, deleted, reg', law, room, heap) = delete_handle_lem w.tasks self j p reg found in
    (
      record w { tasks = st; cancelled = j ∷ w.cancelled },
      simp (named, deleted),
      record {
        service = refl;
        queues = refl;
        cancelled = refl;
        registry = reg';
        named = law;
        room = room;
        heap = heap;
      },
    )

pub delete_queue_lem :
    (w : World) (q : ℕ) {x : Queue ServiceEvent}
    → w.service.queue ≡ some q
    → w.queues q ≡ some x
    → delete_queue w ≡ ok (record w { queues = put w.queues q none })
unfolding delete_queue
delete_queue_lem w q named there =
    let freed : free_queue (some q) w ≡ ok (record w { queues = put w.queues q none }) =
      rw (free_queue, there) in
    ap (λ o. free_queue o w) named ∙ freed

-- The service was started again with what was granted.
pub record HasRestarted (w w' : World) (g : Grant) (name : List ℕ) : Type 0 where
  pub state : w'.service.state ≡ ServiceState.running
  pub task : w'.service.task ≡ some g.block
  pub queue : w'.service.queue ≡ some g.queue
  pub registry : IsRegistry w'.tasks
  pub named :
      (i : ℕ) → names w'.tasks i ≡ (if g.thread == i then ok (some name) else names w.tasks i)
  pub own : get_self g.thread w'.tasks ≡ ok (some g.block)
  pub made :
      (x : Queue ServiceEvent) × (w'.queues ≡ put w.queues g.queue (some x)) × Represents x []
  pub cancelled : w'.cancelled ≡ w.cancelled

pub restart_lem :
    (w : World) (g : Grant) (name : List ℕ)
    → length name < 32
    → w.service.state ≡ ServiceState.stopped
    → IsRegistry w.tasks
    → IsFree w g
    → (w' : World) × (restart g name w ≡ ok w') × HasRestarted w w' g name
unfolding restart
restart_lem w g name short stopped reg free =
    let (r, st, came, runs, reg', law, tasks, heap, own) =
      start_granted_lem g name w.service w.tasks stopped short reg free.room free.block
        free.thread in
    let (x, made, represents, size) = runs.empty in
    (
      record w { service = r.service; tasks = st; queues = put w.queues g.queue (some x) },
      simp (came, made),
      record {
        state = runs.started.state;
        task = runs.on_task;
        queue = runs.on_queue;
        registry = reg';
        named = law;
        own = own;
        made = (x, refl, represents);
        cancelled = refl;
      },
    )
