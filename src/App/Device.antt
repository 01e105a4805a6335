-- ===== src/App/Device.antt =====
-- The start of the program on the device: main/main.c over the queues and the tasks of FreeRTOS.
use univr_info_workshop.Common.{
  ℕ, ◌≡◌, ◌≢◌, refl, ap, true, Option, none, some, List, [], codes, if◌then◌else◌, Outcome, ok,
  abort, ◌>>=◌,
}
use univr_info_workshop.Service.{
  Service, ServiceState, ServiceEvent, is_stopped, service_queue_size,
}
use univr_info_workshop.Service.Lifecycle.{IsStarted}
use univr_info_workshop.Hmi.{service_hmi}
use univr_info_workshop.Esp32.Queue.{Freertos, new}
use univr_info_workshop.Esp32.Task.{Tasks, pd_pass, start_service}
use univr_info_workshop.Esp32.Task.Starting.{answer, start_service_lem}
use univr_info_workshop.App.{service_core}

-- Two 32-bit fields.
abbrev pub service_event_size : ℕ
service_event_size = 8

-- The addresses of `Service_Main` and of a service.
pub record Place : Type 0 where
  pub main : ℕ
  pub service : ℕ

-- The address of the queue that `Queue_New` made.
abbrev pub address : {H : Type 0} → Option (ℕ × H) → Option ℕ
address none = none
address (some (a, q)) = some a

module _ (f : Tasks) (k : Freertos ServiceEvent f.State) where
  -- A queue of FreeRTOS, with its address.
  abbrev pub Made : Type 0
  Made = Option (ℕ × k.Handle)

  -- `Service_Start` on the device: the queue comes first, then the task, from the same memory.
  pub start_on_device :
      Place → (name : List ℕ) → Service → f.State → Outcome (Service × Made × f.State)
  start_on_device p name s st =
      if is_stopped s.state
      then (let (made, st₁) = new k service_queue_size service_event_size st in
          do
            (s', st₂) ← start_service f p.main p.service name (address made) s st₁
            ok (s', made, st₂))
      else ok (s, none, st)

  -- `app_main` up to its endless loop.
  pub app_main_on_device :
      (for_core for_hmi : Place)
      → f.State
      → Outcome (((Service × Made) × (Service × Made)) × f.State)
  unfolding start_on_device
  app_main_on_device for_core for_hmi st = do
    (core, core_queue, st₁) ← start_on_device for_core (codes "CORE") service_core st
    (hmi, hmi_queue, st₂) ← start_on_device for_hmi (codes "HMI") service_hmi st₁
    ok (((core, core_queue), (hmi, hmi_queue)), st₂)

  -- What the start of a service asks of FreeRTOS, and gets: a queue at `a`, and then a task.
  pub record Gives (p : Place) (name : List ℕ) (s : Service) (st : f.State) (a : ℕ) (q : k.Handle)
      (task : ℕ) (st' : f.State) : Type 0 where
    pub between : f.State
    pub queue : k.create service_queue_size service_event_size st ≡ (some (a, q), between)
    pub new_task : answer f p.main p.service name s between ≡ (pd_pass, some task, st')

  -- FreeRTOS refuses the queue, or makes the queue and reports a failure for the task.
  pub data Refuses (p : Place) (name : List ℕ) (s : Service) (st : f.State) : Type 0 where
    no_queue :
        {st₁ : f.State}
        → k.create service_queue_size service_event_size st ≡ (none, st₁)
        → Refuses p name s st
    no_task :
        {a : ℕ} {q : k.Handle} {st₁ : f.State}
        → k.create service_queue_size service_event_size st ≡ (some (a, q), st₁)
        → (answer f p.main p.service name s st₁).0 ≢ pd_pass
        → Refuses p name s st

  -- A service that runs on the device: on an empty queue of 20 places, at its address, and on a task.
  pub record RunsOn (s : Service) (a : ℕ) (q : k.Handle) (task : ℕ) : Type 0 where
    pub started : IsStarted s
    pub on_queue : s.queue ≡ some a
    pub on_task : s.task ≡ some task
    pub empty : k.Holds service_queue_size q []

  module _ (p : Place) (name : List ℕ) (s : Service) (st : f.State)
      (stopped : s.state ≡ ServiceState.stopped) where
    start_given :
        {a : ℕ} {q : k.Handle} {task : ℕ} {st' : f.State}
        → Gives p name s st a q task st'
        → (s' : Service) × (start_on_device p name s st ≡ ok (s', some (a, q), st'))
          × RunsOn s' a q task
    unfolding start_on_device new
    start_given {a} {q} {task} {st'} g =
        let begins : is_stopped s.state ≡ true = ap is_stopped stopped in
        let (s', e, started, on_queue, on_task) =
          (start_service_lem f p.main p.service name a s g.between stopped).0 task st' g.new_task in
        (
          s',
          rw (begins, g.queue, e) refl,
          record {
            started = started;
            on_queue = on_queue;
            on_task = on_task;
            empty = k.created service_queue_size service_event_size st g.queue;
          },
        )

    start_refused : Refuses p name s st → start_on_device p name s st ≡ abort
    unfolding start_on_device new start_service
    start_refused (no_queue e) =
        let begins : is_stopped s.state ≡ true = ap is_stopped stopped in
        rw (begins, e, begins) refl
    start_refused (no_task {a = a} {st₁ = st₁} e failed) =
        let begins : is_stopped s.state ≡ true = ap is_stopped stopped in
        let reboots = (start_service_lem f p.main p.service name a s st₁ stopped).1 failed in
        rw (begins, e, reboots) refl

-- The start of the device follows what FreeRTOS makes for it, one after the other, from one
-- memory. If it makes a queue for 20 events and a task for the core service, and then a queue and
-- a task for the HMI, the tasks with the stacks and the priorities of the services or the
-- defaults, both services run, each on the queue that was made for it, which is empty, and on its
-- own task. If it refuses the queue or the task of the core service, or makes these and refuses
-- the queue or the task of the HMI, the program reboots.
pub app_main_on_device_lem :
    (f : Tasks) (k : Freertos ServiceEvent f.State) (c h : Place) (st st₁ st₂ : f.State) (a b : ℕ)
    (p q : k.Handle) (core_task hmi_task : ℕ)
    → (Gives f k c (codes "CORE") service_core st a p core_task st₁
        → Gives f k h (codes "HMI") service_hmi st₁ b q hmi_task st₂
        → (core hmi : Service) × (app_main_on_device f k c h st
            ≡ ok (((core, some (a, p)), (hmi, some (b, q))), st₂))
          × RunsOn f k core a p core_task
          × RunsOn f k hmi b q hmi_task)
      × (Refuses f k c (codes "CORE") service_core st → app_main_on_device f k c h st ≡ abort)
      × (Gives f k c (codes "CORE") service_core st a p core_task st₁
          → Refuses f k h (codes "HMI") service_hmi st₁
          → app_main_on_device f k c h st ≡ abort)
unfolding app_main_on_device
app_main_on_device_lem f k c h st st₁ st₂ a b p q core_task hmi_task = (
  λ for_core for_hmi.
      let (core, e, core_runs) = start_given f k c (codes "CORE") service_core st refl for_core in
      let (hmi, e', hmi_runs) = start_given f k h (codes "HMI") service_hmi st₁ refl for_hmi in
      (core, hmi, rw (e, e') refl, core_runs, hmi_runs),
  λ refused. rw (start_refused f k c (codes "CORE") service_core st refl refused) refl,
  λ for_core refused.
      let (core, e, core_runs) = start_given f k c (codes "CORE") service_core st refl for_core in
      rw (e, start_refused f k h (codes "HMI") service_hmi st₁ refl refused) refl,
)
