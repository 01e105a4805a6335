-- ===== src/App/Emulator.antt =====
-- The start of the emulator over the adapters of the PC: emulator/main.c with the queues and the table of
-- tasks of adapter/posix.
use univr_info_workshop.Common.{
  ℕ, ◌<◌, ◌≡◌, ◌≢◌, ==_ne, refl, ap, ◌∙◌, true, Option, none, some, List, [], length, arith, ◌==◌,
  if◌then◌else◌, Outcome, ok, codes, ◌>>=◌,
}
use univr_info_workshop.Service.{
  Service, ServiceState, ServiceEvent, is_stopped, service_queue_size,
}
use univr_info_workshop.Service.Lifecycle.{IsStarted, start-ok, start-IsStarted}
use univr_info_workshop.Hmi.{service_hmi}
use univr_info_workshop.Posix.Queue.{Queue}
use univr_info_workshop.Posix.Queue.Refine.{Represents}
use univr_info_workshop.Posix.Task.{State, initial, store, get_self}
use univr_info_workshop.Posix.Task.Self.{has_room}
use univr_info_workshop.Posix.Task.Registry.{IsRegistry}
use univr_info_workshop.Posix.Task.Registry.Names.{names}
use univr_info_workshop.Posix.Task.Registry.History.{
  starts, History-names, create_lem, initial-IsRegistry,
}
use univr_info_workshop.App.{service_core, service_network_console}
use univr_info_workshop.App.OnPc.{start_on_pc, new_ok}

-- What the system gives to the start of a service when no call fails: the address of the queue's struct, the
-- block of the task, and its thread.
pub record Grant : Type 0 where
  pub queue : ℕ
  pub block : ℕ
  pub thread : ℕ

-- A service that was started, and its queue.
pub record Running : Type 0 where
  pub service : Service
  pub queue : Option (Queue ServiceEvent)

-- `Service_Start` with such a grant.
abbrev pub start_granted : Grant → (name : List ℕ) → Service → State → Outcome (Running × State)
start_granted g name s st = do
  (s', q, st') ← start_on_pc g.queue true 0 0 (some g.block) (some g.thread) name s st
  ok (record { service = s'; queue = q }, st')

-- `main` of emulator/main.c up to its endless loop.
pub emulator_on_pc :
    (for_core for_hmi for_console : Grant) → State → Outcome ((Running × Running × Running) × State)
emulator_on_pc for_core for_hmi for_console st = do
  (core, st₁) ← start_granted for_core (codes "CORE") service_core st
  (hmi, st₂) ← start_granted for_hmi (codes "HMI") service_hmi st₁
  (console, st₃) ← start_granted for_console (codes "TEL") service_network_console st₂
  ok ((core, hmi, console), st₃)

-- A service that runs with what it was granted: on an empty queue of 20 places and on a task of its own.
pub record Runs (r : Running) (g : Grant) : Type 0 where
  pub started : IsStarted r.service
  pub on_queue : r.service.queue ≡ some g.queue
  pub on_task : r.service.task ≡ some g.block
  pub empty :
      (q : Queue ServiceEvent) × (r.queue ≡ some q)
      × Represents q []
      × (q.size ≡ service_queue_size)

pub start_granted_lem :
    (g : Grant) (name : List ℕ) (s : Service) (st : State)
    → s.state ≡ ServiceState.stopped
    → length name < 32
    → IsRegistry st
    → has_room st.tasks ≡ true
    → st.heap g.block ≡ none
    → names st g.thread ≡ ok none
    → (r : Running) × (st' : State) × (start_granted g name s st ≡ ok (r, st'))
      × Runs r g
      × IsRegistry st'
      × ((j : ℕ) → names st' j ≡ (if g.thread == j then ok (some name) else names st j))
      × (st'.tasks ≡ store g.block st.tasks)
      × ((q : ℕ) → g.block ≢ q → st'.heap q ≡ st.heap q)
      × (get_self g.thread st' ≡ ok (some g.block))
unfolding start_on_pc
start_granted_lem g name s st stopped short reg room fresh unknown =
    let begins : is_stopped s.state ≡ true = ap is_stopped stopped in
    let (q, made, represents, size) = new_ok in
    let (st', created, reg', law, own, tasks, heap) =
      create_lem st name g.block g.thread reg short fresh unknown room in
    let (s', e) = start-ok (some g.queue) (some g.block) s (λ h. cc) (λ h. cc) in
    let (started, same, on_queue, on_task) =
      start-IsStarted (some g.queue) (some g.block) s stopped e in
    (
      record { service = s'; queue = some q },
      st',
      rw (begins, made, created, e) refl,
      record {
        started = started;
        on_queue = on_queue;
        on_task = on_task;
        empty = (q, refl, represents, size);
      },
      reg',
      law,
      tasks,
      heap,
      own,
    )

-- The emulator comes up: with three queues, and three tasks on different blocks and different threads, `main` starts the core
-- service, the HMI and the remote console; each runs on an empty queue of 20 places and on a task of its own;
-- the table of the tasks is valid, each of the three threads finds the name of its service, and
-- no other thread finds any.
pub emulator_on_pc_lem :
    (a b c : Grant)
    → a.block ≢ b.block
    → a.block ≢ c.block
    → b.block ≢ c.block
    → a.thread ≢ b.thread
    → a.thread ≢ c.thread
    → b.thread ≢ c.thread
    → (core hmi console : Running) × (st : State) × (emulator_on_pc a b c initial
        ≡ ok ((core, hmi, console), st))
      × Runs core a
      × Runs hmi b
      × Runs console c
      × IsRegistry st
      × ((j : ℕ)
          → names st j ≡ (
              if c.thread == j
              then ok (some (codes "TEL"))
              else if b.thread == j
              then ok (some (codes "HMI"))
              else if a.thread == j
              then ok (some (codes "CORE"))
              else ok none))
unfolding emulator_on_pc has_room store
emulator_on_pc_lem a b c ab ac bc tab tac tbc =
    let at_first = (History-names starts).1 in
    let (core, st₁, e₁, runs₁, reg₁, law₁, tasks₁, heap₁, own₁) =
      start_granted_lem a (codes "CORE") service_core initial refl (omega arith) initial-IsRegistry
        refl refl (at_first a.thread) in
    let (hmi, st₂, e₂, runs₂, reg₂, law₂, tasks₂, heap₂, own₂) =
      start_granted_lem b (codes "HMI") service_hmi st₁ refl (omega arith) reg₁ (ap has_room tasks₁)
        (heap₁ b.block ab) (law₁ b.thread ∙ rw (==_ne a.thread b.thread tab) (at_first b.thread)) in
    let (console, st₃, e₃, runs₃, reg₃, law₃, tasks₃, heap₃, own₃) =
      start_granted_lem c (codes "TEL") service_network_console st₂ refl (omega arith) reg₂
        (ap has_room (tasks₂ ∙ ap (store b.block) tasks₁)) (heap₂ c.block bc ∙ heap₁ c.block ac)
        (law₂ c.thread
          ∙ rw (==_ne b.thread c.thread tbc)
              (law₁ c.thread ∙ rw (==_ne a.thread c.thread tac) (at_first c.thread))) in
    (
      core,
      hmi,
      console,
      st₃,
      rw (e₁, e₂, e₃) refl,
      runs₁,
      runs₂,
      runs₃,
      reg₃,
      λ j.
          law₃ j
          ∙ ap (λ r. if c.thread == j then ok (some (codes "TEL")) else r)
              (law₂ j
                ∙ ap (λ r. if b.thread == j then ok (some (codes "HMI")) else r)
                    (law₁ j
                      ∙ ap (λ r. if a.thread == j then ok (some (codes "CORE")) else r)
                          (at_first j))),
    )
