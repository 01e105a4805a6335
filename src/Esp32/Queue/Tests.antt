-- ===== src/Esp32/Queue/Tests.antt =====
-- The device's queue over a list of messages that stands for FreeRTOS.
use univr_info_workshop.Common.{ℕ, ◌^◌, ◌<◌, ◌≡◌, refl, ◌-◌, none, List, [], ◌∷◌, arith, ok, abort}
use univr_info_workshop.Adapter.Agree.{Reply, sends, receives, run}
use univr_info_workshop.Posix.Time.{Timeval}
use univr_info_workshop.Posix.Queue.{Queue}
use univr_info_workshop.Posix.Queue.Adapter.{adapter}
use univr_info_workshop.Posix.Queue.Refine.{Represents}
use univr_info_workshop.Esp32.Queue.{send, ticks_of}
use univr_info_workshop.Esp32.Queue.Sample.{Rtos, RtosHolds, rtos}
use univr_info_workshop.Esp32.Queue.Contract.{device, device-agrees}

null_handle : send (rtos {M = ℕ} 1) none 5 ≡ abort
unfolding send
null_handle = refl

abbrev now : Timeval
now = record { tv_sec = 1; tv_usec = 2 }

abbrev empty : Queue ℕ
empty = record { size = 1; head = 0; tail = 0; n_elements = 0; messages = none ∷ []; blocks = [] }

empty-Represents : Represents empty []
empty-Represents = record {
  size_pos = omega arith;
  size_small = omega arith;
  slots = refl;
  tail_in = omega arith;
  count = refl;
  room = omega arith;
  head_at = refl;
  view = λ i h. absurd (omega arith);
}

half_second-finite : ticks_of (rtos {M = ℕ} 1) 500 < 2 ^ 32 - 1
half_second-finite = omega arith

device-agrees_example :
    (rs : List (Reply ℕ)) × (ys : List ℕ) × (p' : Rtos ℕ) × (q' : Queue ℕ) × (run
        (device (rtos 1) 500 half_second-finite)
        (1, [])
        (sends 5 ∷ sends 6 ∷ receives ∷ [])
      ≡ ok (rs, p'))
    × (run (adapter now 500) empty (sends 5 ∷ sends 6 ∷ receives ∷ []) ≡ ok (rs, q'))
    × RtosHolds 1 p' ys
    × (adapter now 500).Holds 1 q' ys
device-agrees_example =
    device-agrees (rtos 1) 500 half_second-finite now 1 (1, []) empty []
      (sends 5 ∷ sends 6 ∷ receives ∷ []) (refl, refl) (empty-Represents, refl) (omega arith)
