-- ===== src/Posix/Queue/Tests.antt =====
-- The queue of queue.c at concrete inputs.
use univr_info_workshop.Common.{
  map, ℕ, ◌+◌, ◌*◌, ◌≤◌, ◌<◌, ◌≡◌, refl, ◌≢◌, true, none, some, List, [], ◌∷◌, arith, ◌==◌,
  if◌then◌else◌, ok,
}
use univr_info_workshop.Error.{ErrorCode}
use univr_info_workshop.Posix.Time.{Timeval, one_sec_in_ns, timeval_ns, timespec_ns}
use univr_info_workshop.Posix.Queue.{
  Queue, new, send, receive, enqueue, take_message, deadline, carry_seconds, alone,
}
use univr_info_workshop.Posix.Queue.Deadline.{deadline-ns, receive_full_second}
use univr_info_workshop.Posix.Queue.Refine.{Represents, push, new-Represents, enqueue-Represents}
use univr_info_workshop.Posix.Queue.Receiving.{Answers, receive_result, receive_refines}
use univr_info_workshop.Posix.Queue.Trace.{Call, sends, receives, call, calls, fifo, calls_refines}
use univr_info_workshop.Posix.Queue.Memory.{Block, allocated, delete, accepted, delete-calls}
use univr_info_workshop.Posix.Queue.Wakeup.{
  Receiver, System, Reach, start, later, sleeps, NoLostWakeup, Reach-NoLostWakeup, lost_wakeup,
}

-- Two places, no message.
abbrev fresh : Queue ℕ
fresh = record {
  size = 2;
  head = 0;
  tail = 0;
  n_elements = 0;
  messages = none ∷ none ∷ [];
  blocks = [];
}

-- The same after 7 was sent.
abbrev holds_seven : Queue ℕ
holds_seven = enqueue fresh 7

abbrev at_noon : Timeval
at_noon = record { tv_sec = 43200; tv_usec = 999999 }

abbrev half_past : Timeval
half_past = record { tv_sec = 43200; tv_usec = 500000 }

abbrev script : List (Call ℕ)
script =
    sends 7
    ∷ sends 8
    ∷ sends 9
    ∷ receives at_noon 500
    ∷ sends 9
    ∷ receives at_noon 500
    ∷ receives at_noon 500
    ∷ receives at_noon 500
    ∷ receives half_past 500
    ∷ []

-- The third send is refused, the fourth goes round the end of the array, and the wait of the last
-- receive is refused.
script_replies :
    (fifo 2 [] script).0
    ≡ (ErrorCode.success, none)
      ∷ (ErrorCode.success, none)
      ∷ (ErrorCode.error_resource_not_available, none)
      ∷ (ErrorCode.success, some 7)
      ∷ (ErrorCode.success, none)
      ∷ (ErrorCode.success, some 8)
      ∷ (ErrorCode.success, some 9)
      ∷ (ErrorCode.error_timeout, none)
      ∷ (ErrorCode.error_os, none)
      ∷ []
unfolding fifo push deadline carry_seconds
script_replies = refl

fresh-Represents : Represents fresh []
unfolding new
fresh-Represents = (new-Represents 2 true 0 0 (omega arith) (omega arith) refl).0

holds_seven-Represents : Represents holds_seven (7 ∷ [])
holds_seven-Represents = enqueue-Represents fresh 7 [] fresh-Represents (omega arith)

deadline-ns_example :
    (timespec_ns (deadline at_noon 1500) ≡ timeval_ns at_noon + 1500 * 1000000)
    × ((deadline at_noon 1500).tv_nsec ≤ one_sec_in_ns)
deadline-ns_example = deadline-ns at_noon 1500 (omega arith) (omega arith)

receive_full_second_example :
    receive 0 half_past alone fresh 500 ≡ ok (ErrorCode.error_os, none, fresh)
receive_full_second_example =
    receive_full_second half_past alone fresh 500 (omega arith) (omega arith) refl refl
      (λ tp h. ground arith)

receive_refines_example :
    Answers
      (receive 0 half_past alone holds_seven 500)
      (receive_result (7 ∷ []) (alone (deadline half_past 500) holds_seven).0 [])
receive_refines_example =
    receive_refines half_past alone holds_seven (7 ∷ []) [] 500 holds_seven-Represents
      (λ e. absurd (ground arith))

calls_refines_example :
    (q' : Queue ℕ) × (calls fresh script ≡ ok ((fifo 2 [] script).0, q'))
    × Represents q' (fifo 2 [] script).1
calls_refines_example = calls_refines fresh [] script fresh-Represents

abbrev idle : System ℕ
idle = record { queue = fresh; receivers = λ _. Receiver.outside }

abbrev one_sleeps :
    Reach 1 idle
      (record idle { receivers = λ j. if 0 == j then Receiver.asleep else Receiver.outside })
one_sleeps = later start (sleeps 0 (omega arith) refl refl)

Reach-NoLostWakeup_example :
    NoLostWakeup 1
      (record idle { receivers = λ j. if 0 == j then Receiver.asleep else Receiver.outside })
Reach-NoLostWakeup_example = Reach-NoLostWakeup (λ i h. ground arith) one_sleeps

lost_wakeup_example :
    (s : System ℕ) × Reach 2 idle s
    × (s.receivers 1 ≡ Receiver.asleep)
    × ((i : ℕ) → i < 2 → s.receivers i ≢ Receiver.woken)
    × Represents s.queue (8 ∷ [])
lost_wakeup_example = lost_wakeup fresh 7 8 fresh-Represents (omega arith)

-- The queue of one message that was sent and received.
abbrev emptied : Queue ℕ
emptied = record fresh { head = 1; tail = 1; messages = some 0 ∷ none ∷ []; blocks = 7 ∷ [] }

made : new 2 true 0 0 ≡ ok (some fresh)
unfolding new
made = refl

ran :
    calls fresh (sends 7 ∷ receives at_noon 500 ∷ [])
    ≡ ok ((ErrorCode.success, none) ∷ (ErrorCode.success, some 7) ∷ [], emptied)
unfolding calls call send receive take_message new deadline carry_seconds
ran = refl

delete-calls_example :
    (delete (some emptied)
      ≡ Block.array
        ∷ map Block.message (
            accepted
              (sends 7 ∷ receives at_noon 500 ∷ [])
              ((ErrorCode.success, none) ∷ (ErrorCode.success, some 7) ∷ [])))
    × (allocated emptied ≡ Block.struct ∷ delete (some emptied))
delete-calls_example =
    delete-calls 2 true 0 0 fresh emptied (sends 7 ∷ receives at_noon 500 ∷ [])
      ((ErrorCode.success, none) ∷ (ErrorCode.success, some 7) ∷ []) (λ e. cc) made ran
