-- ===== src/App/Handover/Tests.antt =====
-- A service that is started again while its old task ends, at concrete inputs.
use univr_info_workshop.Common.{
  ℕ, ◌≡◌, ◌∙◌, refl, none, some, [], arith, ok, ◌==◌, if◌then◌else◌, codes,
}
use univr_info_workshop.Hmi.{service_hmi}
use univr_info_workshop.Posix.Task.{State, initial, store}
use univr_info_workshop.Posix.Task.Self.{has_room}
use univr_info_workshop.Posix.Task.Life.{created}
use univr_info_workshop.Posix.Task.Registry.Names.{
  names, after-IsRegistry, after-names, after-found,
}
use univr_info_workshop.Posix.Task.Registry.History.{initial-IsRegistry, History-names, starts}
use univr_info_workshop.App.Emulator.{Grant}
use univr_info_workshop.App.OnPc.{new_ok}
use univr_info_workshop.App.Handover.{World, run, schedule, HasGiven, IsFree}
use univr_info_workshop.App.Handover.Order.{HasHandedOver}
use univr_info_workshop.App.Handover.Late.{schedule_lem}

-- The HMI's task, on the thread 9.
abbrev one_task : State
one_task = created initial 64 (record { thread = 9; name = codes "HMI" })

unknown : (j : ℕ) → names initial j ≡ ok none
unknown = (History-names starts).1

-- The HMI service was stopped.
abbrev ending : World
ending = record {
  service = record service_hmi { task = some 64; queue = some 80 };
  tasks = one_task;
  queues = λ q. if 80 == q then some (new_ok.0) else none;
  cancelled = [];
}

ending-HasGiven : HasGiven ending 9 64 80
unfolding has_room
ending-HasGiven = record {
  stopped = refl;
  task = refl;
  queue = refl;
  registry = after-IsRegistry initial initial-IsRegistry (codes "HMI") 64 9 refl (unknown 9);
  own = after-found initial initial-IsRegistry (codes "HMI") 64 9 refl (unknown 9) refl;
  there = (new_ok.0, refl);
}

abbrev again : Grant
again = record { queue = 96; block = 72; thread = 11 }

again-IsFree : IsFree ending again
unfolding has_room store
again-IsFree = record {
  room = refl;
  block = refl;
  thread =
      after-names initial initial-IsRegistry (codes "HMI") 64 9 refl (unknown 9) refl 11
      ∙ unknown 11;
  queue = refl;
}

-- The start comes between the deletions of the task and of the queue.
schedule_lem_example :
    (w' : World) × (run 9 again (codes "HMI") (schedule 1) ending ≡ ok w')
    × HasHandedOver 1 ending w' again (codes "HMI") 9 80
schedule_lem_example =
    schedule_lem ending again (codes "HMI") 9 64 80 1 (omega arith) ending-HasGiven again-IsFree
