-- ===== src/App/OnPc.antt =====
-- Service_Start of core/service.c over the queues and the tasks of adapter/posix.
use univr_info_workshop.Common.{
  ℕ, ◌<◌, ◌≡◌, refl, ap, Bool, true, Option, none, some, List, [], length, arith, if◌then◌else◌,
  Outcome, ok, abort, ◌>>=◌,
}
use univr_info_workshop.Service.{
  Service, ServiceState, ServiceEvent, is_stopped, start, service_queue_size,
}
use univr_info_workshop.Service.Lifecycle.{IsStarted, start-ok, start-IsStarted}
use univr_info_workshop.Posix.Queue.{Queue, new}
use univr_info_workshop.Posix.Queue.Refine.{Represents, new-Represents}
use univr_info_workshop.Posix.Task.{State, create, get_self, get_name}
use univr_info_workshop.Posix.Task.Safety.{IsValid, creates, Step-IsValid}
use univr_info_workshop.Posix.Task.Self.{has_room, AreOthers}
use univr_info_workshop.Posix.Task.Life.{create-delete}

-- `Service_Start`, where Queue_New and Task_Create are those of the PC: the results of their system
-- calls are arguments, and `address` is that of the queue's struct.
unfoldable pub start_on_pc :
    (address : ℕ) (memory : Bool) (mutex_init cond_init : ℕ) (block thread : Option ℕ)
    (name : List ℕ)
    → Service
    → State
    → Outcome (Service × Option (Queue ServiceEvent) × State)
start_on_pc address memory mutex_init cond_init block thread name s st =
    if is_stopped s.state
    then (do
      made ← new service_queue_size memory mutex_init cond_init
      elim made [
        | none ↦ abort
        | some q ↦ do
          (task, st') ← create true (some name) block thread st
          s' ← start (some address) task s
          ok (s', some q, st')
      ])
    else ok (s, none, st)

-- The queue that `Queue_New` makes for a service when nothing fails.
pub new_ok :
    (q : Queue ServiceEvent) × (new service_queue_size true 0 0 ≡ ok (some q))
    × Represents q []
    × (q.size ≡ service_queue_size)
unfolding new
new_ok =
    let (represents, size) =
      new-Represents {M = ServiceEvent} service_queue_size true 0 0 (omega arith) (omega arith)
        refl in
    (_, refl, represents, size)

-- Starting a stopped service on a PC where no system call fails: with a name of fewer than 32 bytes, a
-- valid table of the tasks with a free place, a block that was not allocated and a thread that is none
-- of the table's, the service is started on an empty queue of 20 places and on a task that finds its
-- own handle, the service's, and its own name, and the table is valid again.
pub start_on_pc_lem :
    (address p thread : ℕ) (name : List ℕ) (s : Service) (st : State)
    → s.state ≡ ServiceState.stopped
    → length name < 32
    → IsValid st
    → has_room st.tasks ≡ true
    → st.heap p ≡ none
    → AreOthers st.heap thread st.tasks
    → (s' : Service) × (q : Queue ServiceEvent) × (st' : State) × (start_on_pc address true 0 0
          (some p)
          (some thread)
          name
          s
          st
        ≡ ok (s', some q, st'))
      × IsStarted s'
      × (s'.queue ≡ some address)
      × (s'.task ≡ some p)
      × Represents q []
      × (q.size ≡ service_queue_size)
      × IsValid st'
      × (get_self thread st' ≡ ok (some p))
      × (get_name thread none st' ≡ ok (some name))
unfolding start_on_pc
start_on_pc_lem address p thread name s st stopped short v room fresh new_thread =
    let begins : is_stopped s.state ≡ true = ap is_stopped stopped in
    let (q, made, represents, size) = new_ok in
    let (running, ended, created, own, named, gone, tasks, heap, unknown) =
      create-delete name p thread st short v fresh new_thread room in
    let (s', e) = start-ok (some address) (some p) s (λ h. cc) (λ h. cc) in
    let (started, same, on_queue, on_task) = start-IsStarted (some address) (some p) s stopped e in
    (
      s',
      q,
      running,
      rw (begins, made, created, e) refl,
      started,
      on_queue,
      on_task,
      represents,
      size,
      Step-IsValid st running v (creates true (some name) p (some thread) (some p) fresh created),
      own,
      named,
    )
