-- ===== src/App/RemoteConsole.antt =====
-- The remote console as a service: SERVICE_NETWORK_CONSOLE of main/src/console/net_console.c, whose task
-- runs `Console_NetConsoleMain` in place of the event loop.
use univr_info_workshop.Common.{
  ◌<◌, ◌≡◌, refl, ◌∙◌, Bool, Bool-cases, inl, inr, ◌&&◌, Option, none, some, List, [], ◌++◌, length,
  if◌then◌else◌, ok, abort, ◌>>=◌,
}
use univr_info_workshop.Error.{ErrorCode}
use univr_info_workshop.Console.{Bytes, cmd_response_max_length}
use univr_info_workshop.Console.Net.{Action, net_console_main}
use univr_info_workshop.Console.Net.Sockets.{all_accepted}
use univr_info_workshop.Console.Net.End.{is_over, net_console_main-is_over}
use univr_info_workshop.Service.{Service, stop}
use univr_info_workshop.Service.Main.{Methods, Round, Progress, service_main}
use univr_info_workshop.Service.Own.{service_main-own}
use univr_info_workshop.Service.Lifecycle.{start-ok, start-IsStarted, stop_lem}
use univr_info_workshop.App.Startup.{AreGiven}
use univr_info_workshop.App.{Resources, start_with, service_network_console}

-- What the sockets answer: whether socket, bind and listen succeed, and the results of accept.
pub record Network : Type 0 where
  pub socket : Bool
  pub bind : Bool
  pub listen : Bool
  pub clients : List (Option (List Bytes))

-- The methods of SERVICE_NETWORK_CONSOLE; `W` is what was done with the sockets by the `main`s that are over.
pub console_methods : (version : Bytes) → Network → Methods (List Action)
console_methods version n = record {
  setup_hook = none;
  teardown_hook = none;
  main = some (λ s done. do
    acts ← net_console_main version n.socket n.bind n.listen n.clients
    ok (if is_over acts then some (s, done ++ acts) else none));
  handler = none;
}

-- The network never fails.
abbrev pub is_reliable : Network → Bool
is_reliable n = n.socket && n.bind && n.listen && all_accepted n.clients

-- The task of a service without a termination semaphore whose `main` is the remote console's.
console_task :
    (version : Bytes) (n : Network) (give : ErrorCode) (delete_returns : Bool) (s : Service)
    (w : List Action) (rounds : List Round)
    → length version < cmd_response_max_length
    → s.termination_semaphore ≡ none
    → service_main (console_methods version n) give delete_returns s w rounds
      ≡ (if is_reliable n then ok (Progress.busy s w) else abort)
unfolding console_methods
console_task version n give delete_returns s w rounds short alone =
    let (acts, e, over) =
      net_console_main-is_over version n.socket n.bind n.listen n.clients short in
    elim (Bool-cases (is_reliable n)) [
      | inl waits ↦ rw waits (
          service_main-own (console_methods version n) give delete_returns s w rounds _ none refl
            refl refl (rw (e, over, waits) refl) alone)
      | inr fails ↦ rw fails (
          service_main-own (console_methods version n) give delete_returns s w rounds _
            (some (w ++ acts)) refl refl refl (rw (e, over, fails) refl) alone)
    ]

-- The remote console, started with a queue and a task at hand and a version shorter than a response: a failure
-- of socket, bind, listen or accept reboots the whole program, since the service has no termination
-- semaphore; without one the task waits for its next client, also when the service is stopped, which
-- the task does not see.
pub console_task_lem :
    (version : Bytes) (n : Network) (r : Resources) (give : ErrorCode) (delete_returns : Bool)
    (rounds : List Round)
    → length version < cmd_response_max_length
    → AreGiven r
    → (s : Service) × (start_with r service_network_console ≡ ok s)
      × (service_main (console_methods version n) give delete_returns s [] rounds
          ≡ (if is_reliable n then ok (Progress.busy s []) else abort))
      × (service_main (console_methods version n) give delete_returns (stop s) [] rounds
          ≡ (if is_reliable n then ok (Progress.busy (stop s) []) else abort))
console_task_lem version n r give delete_returns rounds short given =
    let (s, starts) =
      start-ok r.new_queue r.new_task service_network_console given.queue given.task in
    let (_, kept, _, _) =
      start-IsStarted r.new_queue r.new_task service_network_console refl starts in
    let (_, still, _, _, _) = stop_lem s in
    (
      s,
      starts,
      console_task version n give delete_returns s [] rounds short kept.semaphore,
      console_task version n give delete_returns (stop s) [] rounds short
          (still.semaphore ∙ kept.semaphore),
    )
