-- ===== src/Service.antt =====
-- main/src/core/service.h and service.c: a service is a task with a queue of events. What the
-- other parts of the program answer is an argument, and so are the methods of the service; `W` is
-- the state of the rest of the program, which the methods change. The log is left out.
pub mod Lifecycle
pub mod Notify
pub mod Main
pub mod Own
pub mod Loop
pub mod Termination
pub mod Delivery
pub mod Restart
mod Tests
use univr_info_workshop.Common.{
  ℕ, zero, suc, ◌+◌, Bool, true, false, Option, none, some, List, [], ◌∷◌, ◌==◌, if◌then◌else◌,
  Outcome, ok, abort, fault, ◌>>=◌,
}
use univr_info_workshop.Error.{ErrorCode, is_success}
use univr_info_workshop.Adapter.{QueueAdapter}

-- `enum ServiceState`.
pub data ServiceState : Type 0 where
  stopped waiting running : ServiceState

abbrev pub is_stopped : ServiceState → Bool
is_stopped ServiceState.stopped = true
is_stopped _ = false

abbrev pub is_running : ServiceState → Bool
is_running ServiceState.running = true
is_running _ = false

-- The data of `struct Service`; a pointer is an address, NULL is `none`.
pub record Service : Type 0 where
  pub task_priority : ℕ
  pub task_stack_size : ℕ
  pub queue : Option ℕ
  pub task : Option ℕ
  pub timeout_ms : ℕ
  pub state : ServiceState
  pub termination_semaphore : Option ℕ

-- `ServiceEvent`.
pub record ServiceEvent : Type 0 where
  pub event : ℕ
  pub payload : ℕ

abbrev pub event_timeout : ℕ
event_timeout = 0xafaf

abbrev pub service_queue_size : ℕ
service_queue_size = 20

-- The defaults of main/src/adapter/task.h.
abbrev pub task_default_priority : ℕ
task_default_priority = 1

abbrev pub task_default_stack_size : ℕ
task_default_stack_size = 4096

-- `Service_Start`: `new_queue` and `new_task` are what `Queue_New` and `Task_Create` return.
pub start : (new_queue new_task : Option ℕ) → Service → Outcome Service
start new_queue new_task s =
    if is_stopped s.state
    then elim new_queue [
      | none ↦ abort
      | some q ↦ elim new_task [
        | none ↦ abort
        | some t ↦ ok (record s {
          state = ServiceState.running;
          task_stack_size =
              if s.task_stack_size == 0 then task_default_stack_size else s.task_stack_size;
          task_priority = if s.task_priority == 0 then task_default_priority else s.task_priority;
          queue = some q;
          task = some t;
        })
      ]
    ]
    else ok s

-- `Service_Stop`.
pub stop : Service → Service
stop s = if is_stopped s.state then s else record s { state = ServiceState.stopped }

-- What becomes of an event: a stopped service ignores it, a queue with room keeps it, and on a full
-- queue the program reboots, after it has read the queue out into the log. `draining` says that
-- the reading did not end within its fuel.
pub data Notified (H : Type 0) : Type 0 where
  ignored : Notified H
  queued : H → Notified H
  rebooted : List ServiceEvent → Notified H
  draining : Notified H

module _ (a : QueueAdapter ServiceEvent) where
  -- The loop of lines 122 to 125, on fuel; `none` means that the fuel ran out. A receive that
  -- reports success and hands out nothing is a fault; the contract of queue.h rules it out.
  pub drain : ℕ → a.Handle → Outcome (Option (List ServiceEvent))
  drain zero q = ok none
  drain (suc fuel) q = do
    (e, m, q') ← a.receive q
    if is_success e
        then elim m [
          | none ↦ fault
          | some x ↦ do
            rest ← drain fuel q'
            ok (elim rest [ none ↦ none | some xs ↦ some (x ∷ xs) ])
        ]
        else ok (some [])

  -- `Service_Notify` on a service whose queue is `q`. The drain has a round more than places.
  pub notify : Service → a.Handle → (event payload : ℕ) → Outcome (Notified a.Handle)
  unfolding drain
  notify s q event payload = if is_stopped s.state then ok Notified.ignored else do
    (e, q') ← a.send q (record { event = event; payload = payload })
    if is_success e then ok (Notified.queued q') else do
      last ← drain (service_queue_size + 1) q'
      ok (elim last [ none ↦ Notified.draining | some events ↦ Notified.rebooted events ])
