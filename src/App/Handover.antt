-- ===== src/App/Handover.antt =====
-- The last lines of Service_Main of main/src/core/service.c on the PC, and a start of the same service
-- that may come between them: whoever waits for the termination semaphore may go on as soon as it is
-- given, which is before the task and the queue are deleted. A thread that cancels itself goes on to its
-- next cancellation point, which is the sleep behind these lines, as POSIX documents; what the new
-- thread does meanwhile is left out.
pub mod Steps
pub mod Order
pub mod Late
mod Finish
mod Tests
use univr_info_workshop.Common.{
  ℕ, zero, suc, ◌≡◌, true, Option, none, some, List, [], ◌∷◌, Outcome, ok, fault, ◌>>=◌, Heap, put,
}
use univr_info_workshop.Service.{Service, ServiceState, ServiceEvent}
use univr_info_workshop.Posix.Queue.{Queue}
use univr_info_workshop.Posix.Task as Tasks
use univr_info_workshop.Posix.Task.{State, get_self}
use univr_info_workshop.Posix.Task.Self.{has_room}
use univr_info_workshop.Posix.Task.Registry.{IsRegistry}
use univr_info_workshop.Posix.Task.Registry.Names.{names}
use univr_info_workshop.App.Emulator.{Grant, start_granted}

-- The service, the tasks, the structs of the queues that are allocated, and the threads that were cancelled, the
-- last one first.
pub record World : Type 0 where
  pub service : Service
  pub tasks : State
  pub queues : Heap (Queue ServiceEvent)
  pub cancelled : List ℕ

-- Line 52, on the thread `self`.
pub delete_task : (self : ℕ) → World → Outcome World
delete_task self w = do
  (gone, tasks) ← Tasks.delete self w.service.task w.tasks
  ok (record w {
    tasks = tasks;
    cancelled = elim gone [ none ↦ w.cancelled | some t ↦ t ∷ w.cancelled ];
  })

-- `Queue_Delete` frees the struct, and does nothing for NULL.
pub free_queue : Option ℕ → World → Outcome World
free_queue none w = ok w
free_queue (some q) w = elim (w.queues q) [
  | none ↦ fault
  | some _ ↦ ok (record w { queues = put w.queues q none })
]

-- Line 53.
pub delete_queue : World → Outcome World
unfolding free_queue
delete_queue w = free_queue w.service.queue w

-- Line 54: the pointer to the queue becomes NULL.
pub forget_queue : World → Outcome World
forget_queue w = ok (record w { service = record w.service { queue = none } })

-- `Service_Start`, with what the system grants.
pub restart : Grant → (name : List ℕ) → World → Outcome World
restart g name w = do
  (r, tasks) ← start_granted g name w.service w.tasks
  ok (record w {
    service = r.service;
    tasks = tasks;
    queues = elim r.queue [ none ↦ w.queues | some q ↦ put w.queues g.queue (some q) ];
  })

pub data Move : Type 0 where
  deletes_task deletes_queue forgets_queue restarts : Move

-- What one of the two threads does.
pub move : (self : ℕ) → Grant → (name : List ℕ) → Move → World → Outcome World
unfolding delete_task delete_queue forget_queue restart
move self g name Move.deletes_task w = delete_task self w
move self g name Move.deletes_queue w = delete_queue w
move self g name Move.forgets_queue w = forget_queue w
move self g name Move.restarts w = restart g name w

pub run : (self : ℕ) → Grant → (name : List ℕ) → List Move → World → Outcome World
unfolding move
run self g name [] w = ok w
run self g name (m ∷ ms) w = do w' ← move self g name m w; run self g name ms w'

-- The three lines, with the start after the first `i` of them.
pub schedule : ℕ → List Move
schedule zero = Move.restarts ∷ Move.deletes_task ∷ Move.deletes_queue ∷ Move.forgets_queue ∷ []
schedule (suc zero) =
    Move.deletes_task ∷ Move.restarts ∷ Move.deletes_queue ∷ Move.forgets_queue ∷ []
schedule (suc (suc zero)) =
    Move.deletes_task ∷ Move.deletes_queue ∷ Move.restarts ∷ Move.forgets_queue ∷ []
schedule (suc (suc (suc n))) =
    Move.deletes_task ∷ Move.deletes_queue ∷ Move.forgets_queue ∷ Move.restarts ∷ []

-- The semaphore of a stopped service has been given by its task, on the thread `self` with the handle `p`; its
-- queue is `q`.
pub record HasGiven (w : World) (self p q : ℕ) : Type 0 where
  pub stopped : w.service.state ≡ ServiceState.stopped
  pub task : w.service.task ≡ some p
  pub queue : w.service.queue ≡ some q
  pub registry : IsRegistry w.tasks
  pub own : get_self self w.tasks ≡ ok (some p)
  pub there : (x : Queue ServiceEvent) × (w.queues q ≡ some x)

-- What the start is granted is not in use, and the table has a free place.
pub record IsFree (w : World) (g : Grant) : Type 0 where
  pub room : has_room w.tasks.tasks ≡ true
  pub block : w.tasks.heap g.block ≡ none
  pub thread : names w.tasks g.thread ≡ ok none
  pub queue : w.queues g.queue ≡ none
