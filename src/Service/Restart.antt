-- ===== src/Service/Restart.antt =====
-- Stopping a service and starting it again. `Service_Stop` only sets the state: the task sees it at
-- the head of its loop, when it has handled the event that it waits for. Nothing in core/service.c
-- makes a start wait for that.
mod Tests
use univr_info_workshop.Common.{
  ℕ, ◌+◌, ◌≤◌, ◌≡◌, ◌⊎◌, inl, inr, refl, sym, ap, ◌∙◌, subst, Bool, true, false, Option, none, some,
  List, [], ◌∷◌, ◌++◌, length, arith, if◌then◌else◌, ok, abort, fault, ◌≢◌,
}
use univr_info_workshop.Service.{Service, ServiceState, start, stop, is_stopped, is_running}
use univr_info_workshop.Service.Lifecycle.{start-ok, start-IsStarted, start-abort, stop_lem}

-- A service, and the tasks that are in its event loop, the youngest first.
pub record System : Type 0 where
  pub service : Service
  pub tasks : List ℕ

-- Whether `Service_Start` creates a task for a service: it reboots when it gets a queue and no task.
abbrev pub creates_task : (queue : ℕ) → Service → Bool
creates_task q s = elim (start (some q) none s) [ ok _ ↦ false | abort ↦ true | fault ↦ true ]

-- The tasks in the loop after `Service_Start`, to which Task_Create would give the task `t`.
abbrev pub with_new : (queue t : ℕ) → System → List ℕ
with_new q t s = if creates_task q s.service then t ∷ s.tasks else s.tasks

-- A step of the program. `Service_Start` may be called in every state; where the program is
-- `orderly`, it is not called on a stopped service while a task is still in the loop.
pub data Step (orderly : Bool) (s : System) : System → Type 0 where
  starts :
      (q t : ℕ) {service : Service}
      → (orderly ≡ true → s.service.state ≡ ServiceState.stopped → s.tasks ≡ [])
      → start (some q) (some t) s.service ≡ ok service
      → Step orderly s (record { service = service; tasks = with_new q t s })
  stops : Step orderly s (record s { service = stop s.service })
  leaves :
      (front back : List ℕ) (t : ℕ)
      → s.tasks ≡ front ++ t ∷ back
      → is_running s.service.state ≡ false
      → Step orderly s (record s { tasks = front ++ back })

pub data Reach (orderly : Bool) (s : System) : System → Type 0 where
  here : Reach orderly s s
  later : {t u : System} → Reach orderly s t → Step orderly t u → Reach orderly s u

-- At most one task is in the loop, the one that the service names.
abbrev pub HasOneTask : System → Type 0
HasOneTask s = (s.tasks ≡ []) ⊎ ((t : ℕ) × (s.tasks ≡ t ∷ []) × (s.service.task ≡ some t))

left_none : (front back : List ℕ) (t u : ℕ) → u ∷ [] ≡ front ++ t ∷ back → front ++ back ≡ []
left_none [] [] t u e = refl
left_none [] (x ∷ back) t u e = cc
left_none (x ∷ []) back t u e = cc
left_none (x ∷ y ∷ front) back t u e = cc

none_leaves : (front back : List ℕ) (t : ℕ) → [] ≡ front ++ t ∷ back → ⊥
none_leaves [] back t e = cc
none_leaves (x ∷ front) back t e = cc

-- A task is created for a stopped service, and for no other.
creates_task_stopped :
    (q : ℕ) (s : Service) → s.state ≡ ServiceState.stopped → creates_task q s ≡ true
creates_task_stopped q s stopped =
    let reboots : start (some q) none s ≡ abort =
      (start-abort (some q) none s).1 (stopped, inr refl) in
    rw (creates_task, reboots) refl

unchanged :
    (q t : ℕ) (s : Service) {u : Service}
    → s.state ≢ ServiceState.stopped
    → start (some q) (some t) s ≡ ok u
    → (u ≡ s) × (creates_task q s ≡ false)
unfolding start
unchanged q t s {u} on came =
    let going : is_stopped s.state ≡ false = ground (arith) in
    let same : ok s ≡ ok u = rw going at came in (cc, rw (creates_task, going) refl)

state-cases : (s : ServiceState) → (s ≡ ServiceState.stopped) ⊎ (s ≢ ServiceState.stopped)
state-cases ServiceState.stopped = inl refl
state-cases ServiceState.waiting = inr (λ e. cc)
state-cases ServiceState.running = inr (λ e. cc)

Step-HasOneTask : {s u : System} → HasOneTask s → Step true s u → HasOneTask u
Step-HasOneTask {s = s} h (starts q t {service = service} alone came) =
    elim (state-cases s.service.state) [
      | inl stopped ↦
          let started = start-IsStarted (some q) (some t) s.service stopped came in
          inr (t, rw (creates_task_stopped q s.service stopped, alone refl stopped) refl, started.3)
      | inr on ↦ let (same, no_new) = unchanged q t s.service on came in rw (same, no_new) h
    ]
Step-HasOneTask {s = s} (inl e) stops = inl e
Step-HasOneTask {s = s} (inr (t, e, named)) stops = inr (t, e, (stop_lem s.service).3 ∙ named)
Step-HasOneTask (inl e) (leaves front back t split ends) =
    absurd (none_leaves front back t (sym e ∙ split))
Step-HasOneTask (inr (u, e, named)) (leaves front back t split ends) =
    inl (left_none front back t u (sym e ∙ split))

-- However starts, stops and the ends of tasks interleave, there is never more than one task in
-- the loop of a service, and it is the one that the service names, if a stopped service is
-- started again only after its task has left the loop. A service that is not stopped may be
-- started at any time.
pub Reach-HasOneTask :
    (service : Service) {u : System}
    → Reach true (record { service = service; tasks = [] }) u
    → HasOneTask u
Reach-HasOneTask service here = inl refl
Reach-HasOneTask service (later r step) = Step-HasOneTask (Reach-HasOneTask service r) step

running_stopped : (s : Service) → is_running (stop s).state ≡ false
running_stopped s = ap is_running (stop_lem s).0

-- A start of a stopped service puts a task into the loop.
starts_stopped :
    {orderly : Bool} (s : System) (q t : ℕ) {service : Service}
    → s.service.state ≡ ServiceState.stopped
    → (orderly ≡ true → s.tasks ≡ [])
    → start (some q) (some t) s.service ≡ ok service
    → Step orderly s (record { service = service; tasks = t ∷ s.tasks })
starts_stopped {orderly} s q t {service} stopped alone came =
    subst
      (λ b.
        Step orderly s (record { service = service; tasks = if b then t ∷ s.tasks else s.tasks }))
      (creates_task_stopped q s.service stopped) (starts q t (λ h _. alone h) came)

-- Two tasks can run the same service: a stopped service that is started, stopped and started again
-- before its first task looks at the state is running with both tasks in its loop, and both take
-- their events from the second queue, since the service has forgotten the first one.
pub two_tasks :
    (s : Service) (q t q' t' : ℕ)
    → s.state ≡ ServiceState.stopped
    → (u : System) × Reach false (record { service = s; tasks = [] }) u
      × (u.tasks ≡ t' ∷ t ∷ [])
      × (u.service.state ≡ ServiceState.running)
      × (u.service.queue ≡ some q')
      × (u.service.task ≡ some t')
two_tasks s q t q' t' stopped =
    let (s₁, e) = start-ok (some q) (some t) s (λ h. cc) (λ h. cc) in
    let (s₂, e') = start-ok (some q') (some t') (stop s₁) (λ h. cc) (λ h. cc) in
    let (started, same, queue, task) =
      start-IsStarted (some q') (some t') (stop s₁) (stop_lem s₁).0 e' in
    (
      record { service = s₂; tasks = t' ∷ t ∷ [] },
      later (later (later here (starts_stopped _ q t stopped (λ h. refl) e)) stops)
          (starts_stopped _ q' t' (stop_lem s₁).0 (λ h. absurd (cc)) e'),
      refl,
      started.state,
      queue,
      task,
    )
