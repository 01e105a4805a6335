-- ===== src/Esp32/Queue/Contract.antt =====
-- The device's queue as an implementation of queue.h.
use univr_info_workshop.Common.{
  ℕ, ◌<◌, ◌≤◌, ◌≡◌, ◌≢◌, Option, none, some, List, [], ◌∷◌, ◌++◌, length, Outcome, ok,
}
use univr_info_workshop.Error.{ErrorCode}
use univr_info_workshop.Adapter.{QueueAdapter}
use univr_info_workshop.Adapter.Agree.{Call, Reply, run, run-agrees}
use univr_info_workshop.Posix.Time.{Timeval}
use univr_info_workshop.Posix.Queue.{Queue}
use univr_info_workshop.Posix.Queue.Adapter.{adapter}
use univr_info_workshop.Esp32.Queue.{Freertos, send, receive, ticks_of}

module _ {M S : Type 0} (f : Freertos M S) (timeout_ms : ℕ)
    (finite : ticks_of f timeout_ms < f.max_delay) where
  abbrev pub device_send : f.Handle → M → Outcome (ErrorCode × f.Handle)
  device_send q m = send f (some q) m

  abbrev pub device_receive : f.Handle → Outcome (ErrorCode × Option M × f.Handle)
  device_receive q = receive f (some q) timeout_ms

  pub send_room :
      (cap : ℕ) (q : f.Handle) (m : M) (xs : List M)
      → f.Holds cap q xs
      → length xs < cap
      → (q' : f.Handle) × (device_send q m ≡ ok (ErrorCode.success, q'))
        × f.Holds cap q' (xs ++ m ∷ [])
  unfolding send
  send_room cap q m xs h k = let (q', e, h') = f.sent cap q m xs h k in (q', rw e, h')

  pub send_full :
      (cap : ℕ) (q : f.Handle) (m : M) (xs : List M)
      → f.Holds cap q xs
      → length xs ≡ cap
      → (e : ErrorCode) × (device_send q m ≡ ok (e, q)) × (e ≢ ErrorCode.success)
  unfolding send
  send_full cap q m xs h k = let e = f.full cap q m xs h k in (ErrorCode.failure, rw e, λ e. cc)

  pub receive_first :
      (cap : ℕ) (q : f.Handle) (x : M) (xs : List M)
      → f.Holds cap q (x ∷ xs)
      → (q' : f.Handle) × (device_receive q ≡ ok (ErrorCode.success, some x, q'))
        × f.Holds cap q' xs
  unfolding receive
  receive_first cap q x xs h =
      let (q', e, h') = f.received cap q x xs (ticks_of f timeout_ms) h in (q', rw e, h')

  pub receive_none :
      (cap : ℕ) (q : f.Handle)
      → f.Holds cap q []
      → (e : ErrorCode) × (device_receive q ≡ ok (e, none, q)) × (e ≢ ErrorCode.success)
  unfolding receive
  receive_none cap q h =
      let e = f.timed_out cap q (ticks_of f timeout_ms) h finite in
      (ErrorCode.failure, rw e, λ e. cc)

  -- The device's queue meets the contract of queue.h.
  abbrev pub device : QueueAdapter M
  device = record {
    Handle = f.Handle;
    send = device_send;
    receive = device_receive;
    Holds = f.Holds;
    send_room = send_room;
    send_full = send_full;
    receive_first = receive_first;
    receive_none = receive_none;
  }

-- The device and the PC agree: from queues of the same number of places that hold the same messages,
-- the same calls of `Queue_Send` and `Queue_Receive` bring the same replies on FreeRTOS and over
-- pthreads, to a caller that tests for SUCCESS only, and leave the same messages. The mutex and the
-- memory of the PC are at hand, no other thread sends while a receive waits, and no receive waits for
-- ever.
pub device-agrees :
    {M S : Type 0} (f : Freertos M S) (timeout_ms : ℕ)
    (finite : ticks_of f timeout_ms < f.max_delay) (now : Timeval) (cap : ℕ) (p : f.Handle)
    (q : Queue M) (xs : List M) (cs : List (Call M))
    → f.Holds cap p xs
    → (adapter now timeout_ms).Holds cap q xs
    → length xs ≤ cap
    → (rs : List (Reply M)) × (ys : List M) × (p' : f.Handle) × (q' : Queue M) × (run
          (device f timeout_ms finite)
          p
          cs
        ≡ ok (rs, p'))
      × (run (adapter now timeout_ms) q cs ≡ ok (rs, q'))
      × f.Holds cap p' ys
      × (adapter now timeout_ms).Holds cap q' ys
device-agrees f timeout_ms finite now cap p q xs cs hp hq k =
    run-agrees (device f timeout_ms finite) (adapter now timeout_ms) cap p q xs cs hp hq k
