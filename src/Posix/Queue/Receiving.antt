-- ===== src/Posix/Queue/Receiving.antt =====
-- `Queue_Receive` of queue.c against the bounded first-in first-out queue of Refine.
use native.Mathlib.Nat.{mod-lt}
use univr_info_workshop.Common.{
  ℕ, suc, ◌+◌, ◌-◌, ◌%◌, ◌<◌, ◌≡◌, refl, true, false, Option, none, some, List, [], ◌∷◌, arith,
  ◌==◌, ◌!=◌, if◌then◌else◌, Bool-cases, inl, inr, Outcome, mod-eq_once, ok,
}
use univr_info_workshop.Error.{ErrorCode}
use univr_info_workshop.Posix.Queue.{
  Queue, cell, take_message, add_size, etimedout, deadline, receive,
}
use univr_info_workshop.Posix.Time.{Timeval, Timespec}
use univr_info_workshop.Posix.Queue.Refine.{Represents, pop, place}

module _ {M : Type 0} (q : Queue M) (x : M) (xs : List M) (r : Represents q (x ∷ xs)) where
  open r use {size_pos, size_small, slots, tail_in, count, room, head_at, view}

  -- The queue after the oldest message is taken.
  abbrev pub dequeue : Queue M
  dequeue = record q { n_elements = q.n_elements - 1; tail = add_size q.tail 1 % q.size }

  place-dequeue : (i : ℕ) → i < q.size → place dequeue i ≡ place q (suc i)
  place-dequeue i h = ground (
    arith,
    mod-lt (q.tail + 1) size_pos,
    mod-eq_once (q.tail + 1) q.size (omega arith),
    mod-eq_once (q.tail + suc i) q.size (omega arith),
    mod-eq_once ((q.tail + 1) % q.size + i) q.size (omega (arith, mod-lt (q.tail + 1) size_pos)),
  )

  pub dequeue-Represents : Represents dequeue xs
  dequeue-Represents = record {
    size_pos = size_pos;
    size_small = size_small;
    slots = slots;
    tail_in = mod-lt _ size_pos;
    count = omega arith;
    room = omega arith;
    head_at = ground (arith, place-dequeue (q.n_elements - 1) (omega arith));
    view = λ i h. rw (place-dequeue i (omega arith)) (view (suc i) (omega arith));
  }

  pub cell-tail : cell q q.tail ≡ some x
  cell-tail =
      let e : place q 0 ≡ q.tail = ground (arith, mod-eq_once (q.tail + 0) q.size (omega arith)) in
      rw e at (view 0 (omega arith))

-- The second half of `Queue_Receive` hands out the oldest message, and never reads through an
-- invalid pointer.
pub take_message_refines :
    {M : Type 0} (q : Queue M) (xs : List M)
    → Represents q xs
    → (q' : Queue M) × (take_message q ≡ ok ((pop xs).0, (pop xs).1, q'))
      × Represents q' (pop xs).2
      × (q'.size ≡ q.size)
unfolding take_message pop
take_message_refines q [] r = (q, ground (arith, r.count), r, refl)
take_message_refines q (x ∷ xs) r = (
  dequeue q x xs r,
  ground (arith, r.count, cell-tail q x xs r),
  dequeue-Represents q x xs r,
  refl,
)

-- The specification of a receive: `res` is the result of the wait, `ys` what the wait leaves.
unfoldable pub after_wait : {M : Type 0} → ℕ → List M → ErrorCode × Option M × List M
unfolding pop
after_wait res ys =
    if res == 0
    then pop ys
    else if res == etimedout
    then (ErrorCode.error_timeout, none, ys)
    else (ErrorCode.error_os, none, ys)

unfoldable pub receive_result : {M : Type 0} → List M → ℕ → List M → ErrorCode × Option M × List M
unfolding after_wait
receive_result [] res ys = after_wait res ys
receive_result (x ∷ xs) res ys = pop (x ∷ xs)

abbrev pub Answers :
    {M : Type 0} → Outcome (ErrorCode × Option M × Queue M) → ErrorCode × Option M × List M → Type 0
Answers {M} out spec = (q' : Queue M) × (out ≡ ok (spec.0, spec.1, q')) × Represents q' spec.2

module _ {M : Type 0} (q : Queue M) (ys : List M) (r : Represents q ys) where
  take_message-Answers : Answers (take_message q) (pop ys)
  take_message-Answers = let (q', e, r', _) = take_message_refines q ys r in (q', e, r')

  woken-Answers :
      (res : ℕ)
      → Answers
          (if res == 0
            then take_message q
            else if res == etimedout
            then ok (ErrorCode.error_timeout, none, q)
            else ok (ErrorCode.error_os, none, q))
          (after_wait res ys)
  unfolding after_wait
  woken-Answers res = elim (Bool-cases (res == 0)) [
    | inl woken ↦ rw woken take_message-Answers
    | inr other ↦ elim (Bool-cases (res == etimedout)) [
      | inl late ↦ rw (other, late) (q, refl, r)
      | inr error ↦ rw (other, error) (q, refl, r)
    ]
  ]

-- `Queue_Receive` with the mutex: from a queue that holds messages it takes the oldest one at once,
-- whatever the timeout; from an empty one it waits, and then returns by the result of the wait:
-- the oldest message of what the wait left, or a timeout if there is none; ERROR_TIMEOUT if the
-- wait timed out; ERROR_OS for any other result. No message is lost on any of these ways, and no
-- pointer is invalid.
pub receive_refines :
    {M : Type 0} (now : Timeval) (timedwait : Timespec → Queue M → ℕ × Queue M) (q : Queue M)
    (xs ys : List M) (timeout_ms : ℕ)
    → Represents q xs
    → (xs ≡ [] → Represents (timedwait (deadline now timeout_ms) q).1 ys)
    → Answers
        (receive 0 now timedwait q timeout_ms)
        (receive_result xs (timedwait (deadline now timeout_ms) q).0 ys)
unfolding receive receive_result
receive_refines now timedwait q [] ys timeout_ms r w =
    let e : (q.n_elements != 0) ≡ false = ground (arith, r.count) in
    rw e (
      woken-Answers (timedwait (deadline now timeout_ms) q).1 ys (w refl)
        (timedwait (deadline now timeout_ms) q).0)
receive_refines now timedwait q (x ∷ xs) ys timeout_ms r w =
    let e : (q.n_elements != 0) ≡ true = ground (arith, r.count) in
    rw e (take_message-Answers q (x ∷ xs) r)
