-- ===== src/Esp32/Task/Sample.antt =====
-- A FreeRTOS with little memory, to evaluate the adapter of task.c on.
use univr_info_workshop.Common.{ℕ, ◌+◌, none, some, ltb, if◌then◌else◌}
use univr_info_workshop.Esp32.Task.{Tasks, pd_pass}

-- A FreeRTOS with memory for `room` objects; the state is how many were made.
abbrev pub fit : ℕ → Tasks
fit room = record {
  State = ℕ;
  create = λ entry name stack_size arg priority n.
      if ltb n room then (pd_pass, some (40 + n), n + 1) else (0, none, n);
  delete = λ task n. n;
  delay = λ ticks n. n;
  ms_to_ticks = λ time. time;
  current = λ n. none;
  name_of = λ task n. none;
  set_priority = λ task priority n. n;
}

abbrev pub two_fit : Tasks
two_fit = fit 2
