-- ===== src/Posix/Queue/Wakeup.antt =====
-- The waits of `Queue_Receive` among threads: `n` receivers and any number of senders share one
-- queue. A step is what a thread does while it holds the mutex, so steps do not overlap.
use univr_info_workshop.Common.{
  ℕ, ◌<◌, ◌≡◌, ◌≢◌, refl, true, false, Option, some, [], ◌∷◌, arith, ◌==◌, if◌then◌else◌, ok,
}
use univr_info_workshop.Error.{ErrorCode}
use univr_info_workshop.Posix.Queue.{Queue, send, take_message, enqueue}
use univr_info_workshop.Posix.Queue.Refine.{Represents, head-in_range, enqueue-Represents}
use univr_info_workshop.Posix.Queue.Receiving.{dequeue, dequeue-Represents, cell-tail}

-- Where a receiver stands: outside the call, asleep in pthread_cond_timedwait, or chosen by a
-- signal and about to take the mutex again.
pub data Receiver : Type 0 where
  outside asleep woken : Receiver

pub record System (M : Type 0) : Type 0 where
  pub queue : Queue M
  pub receivers : ℕ → Receiver

abbrev pub update : (ℕ → Receiver) → ℕ → Receiver → ℕ → Receiver
update f i r j = if i == j then r else f j

-- One step. A signal wakes one thread that sleeps, if there is one. A sleeper may also time out, or
-- wake for no reason, as POSIX allows.
pub data Step {M : Type 0} (n : ℕ) (s : System M) : System M → Type 0 where
  sends_quietly :
      (m : M) {e : ErrorCode} {q : Queue M}
      → send 0 true s.queue m ≡ ok (e, q, false)
      → Step n s (record s { queue = q })
  sends_to_none :
      (m : M) {e : ErrorCode} {q : Queue M}
      → send 0 true s.queue m ≡ ok (e, q, true)
      → ((i : ℕ) → i < n → s.receivers i ≢ Receiver.asleep)
      → Step n s (record s { queue = q })
  sends_and_wakes :
      (m : M) (i : ℕ) {e : ErrorCode} {q : Queue M}
      → send 0 true s.queue m ≡ ok (e, q, true)
      → i < n
      → s.receivers i ≡ Receiver.asleep
      → Step n s (record { queue = q; receivers = update s.receivers i Receiver.woken })
  sleeps :
      (i : ℕ)
      → i < n
      → s.receivers i ≡ Receiver.outside
      → s.queue.n_elements ≡ 0
      → Step n s (record s { receivers = update s.receivers i Receiver.asleep })
  takes :
      (i : ℕ) {e : ErrorCode} {m : Option M} {q : Queue M}
      → i < n
      → s.receivers i ≢ Receiver.asleep
      → ((s.receivers i ≡ Receiver.outside) → s.queue.n_elements ≢ 0)
      → take_message s.queue ≡ ok (e, m, q)
      → Step n s (record { queue = q; receivers = update s.receivers i Receiver.outside })
  times_out :
      (i : ℕ)
      → i < n
      → s.receivers i ≡ Receiver.asleep
      → Step n s (record s { receivers = update s.receivers i Receiver.outside })
  wakes_spuriously :
      (i : ℕ)
      → i < n
      → s.receivers i ≡ Receiver.asleep
      → Step n s (record s { receivers = update s.receivers i Receiver.woken })

pub data Reach {M : Type 0} (n : ℕ) (s : System M) : System M → Type 0 where
  start : Reach n s s
  later : {t u : System M} → Reach n s t → Step n t u → Reach n s u

-- A sleeper finds the queue empty.
abbrev pub NoLostWakeup : {M : Type 0} → ℕ → System M → Type 0
NoLostWakeup n s = (i : ℕ) → i < n → s.receivers i ≡ Receiver.asleep → s.queue.n_elements ≡ 0

send-signal :
    {M : Type 0} (q : Queue M) (m : M) {e : ErrorCode} {q' : Queue M}
    → send 0 true q m ≡ ok (e, q', false)
    → q.n_elements ≡ 0
    → q'.n_elements ≡ 0
unfolding send
send-signal q m h k = ground arith

Step-NoLostWakeup : {M : Type 0} {s t : System M} → Step 1 s t → NoLostWakeup 1 s → NoLostWakeup 1 t
Step-NoLostWakeup {s = s} (sends_quietly m e) inv i h a = send-signal s.queue m e (inv i h a)
Step-NoLostWakeup (sends_to_none m e none_sleeps) inv i h a = absurd (none_sleeps i h a)
Step-NoLostWakeup (sends_and_wakes m j e k b) inv i h a = ground arith
Step-NoLostWakeup (sleeps j k b z) inv i h a = z
Step-NoLostWakeup (takes j k b c e) inv i h a = ground arith
Step-NoLostWakeup (times_out j k b) inv i h a = ground (arith, inv i)
Step-NoLostWakeup (wakes_spuriously j k b) inv i h a = ground (arith, inv i)

-- With one receiver, as each service has, no wakeup is lost: however the threads interleave, from a
-- state in which nobody sleeps, the receiver sleeps only while the queue is empty.
pub Reach-NoLostWakeup :
    {M : Type 0} {s t : System M}
    → ((i : ℕ) → i < 1 → s.receivers i ≢ Receiver.asleep)
    → Reach 1 s t
    → NoLostWakeup 1 t
Reach-NoLostWakeup awake start = λ i h a. absurd (awake i h a)
Reach-NoLostWakeup awake (later r step) = Step-NoLostWakeup step (Reach-NoLostWakeup awake r)

module _ {M : Type 0} (q : Queue M) (a b : M) (r : Represents q []) (h : 1 < q.size) where
  abbrev outside_all : System M
  outside_all = record { queue = q; receivers = λ _. Receiver.outside }

  abbrev one_message : Queue M
  one_message = enqueue q a

  abbrev two_messages : Queue M
  two_messages = enqueue one_message b

  held_one : Represents one_message (a ∷ [])
  held_one = enqueue-Represents q a [] r (omega arith)

  held_two : Represents two_messages (a ∷ b ∷ [])
  held_two = enqueue-Represents one_message b (a ∷ []) held_one h

  abbrev one_left : Queue M
  one_left = dequeue two_messages a (b ∷ []) held_two

  send_first : send 0 true q a ≡ ok (ErrorCode.success, one_message, true)
  unfolding send
  send_first = ground (arith, r.count, head-in_range q [] r)

  send_second : send 0 true one_message b ≡ ok (ErrorCode.success, two_messages, false)
  unfolding send
  send_second = ground (arith, held_one.count, head-in_range one_message (a ∷ []) held_one)

  take_first : take_message two_messages ≡ ok (ErrorCode.success, some a, one_left)
  unfolding take_message
  take_first = ground (arith, held_two.count, cell-tail two_messages a (b ∷ []) held_two)

  abbrev forgotten : System M
  forgotten = record {
    queue = one_left;
    receivers =
        update
          (update (update (update (λ _. Receiver.outside) 0 Receiver.asleep) 1 Receiver.asleep) 0
            Receiver.woken)
          0 Receiver.outside;
  }

  Reach-forgotten : Reach 2 outside_all forgotten
  Reach-forgotten =
      later
        (later
          (later
            (later (later start (sleeps 0 (omega arith) refl r.count))
              (sleeps 1 (omega arith) refl r.count))
            (sends_and_wakes a 0 send_first (omega arith) refl))
          (sends_quietly b send_second))
        (takes 0 (omega arith) (ground arith) (λ e. absurd (ground arith)) take_first)

-- With two receivers a wakeup can be lost, because `Queue_Send` signals only when the queue was
-- empty: from any empty queue of two places or more, and for any two messages, the threads reach a
-- state in which one receiver sleeps, none has been woken, and a message waits in the queue.
pub lost_wakeup :
    {M : Type 0} (q : Queue M) (a b : M)
    → Represents q []
    → 1 < q.size
    → (s : System M) × Reach 2 (record { queue = q; receivers = λ _. Receiver.outside }) s
      × (s.receivers 1 ≡ Receiver.asleep)
      × ((i : ℕ) → i < 2 → s.receivers i ≢ Receiver.woken)
      × Represents s.queue (b ∷ [])
lost_wakeup q a b r h = (
  forgotten q a b r h,
  Reach-forgotten q a b r h,
  refl,
  λ i lt. ground arith,
  dequeue-Represents (enqueue (enqueue q a) b) a (b ∷ []) (held_two q a b r h),
)
