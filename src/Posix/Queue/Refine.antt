-- ===== src/Posix/Queue/Refine.antt =====
-- A queue of queue.c holds a list of messages, oldest first, and its operations are those of a
-- bounded first-in first-out queue.
use native.Mathlib.Nat.{mod-eq_of_lt, mod-lt}
use native.Mathlib.Decide.{dec_lt, ℕ_discrete}
use univr_info_workshop.Common.{
  ℕ, suc, ◌+◌, ◌%◌, ◌^◌, ◌≤◌, ◌<◌, ◌≡◌, refl, sym, ◌∙◌, ◌≢◌, Bool, true, false, Option, none, some,
  List, [], ◌∷◌, ◌++◌, arith, ◌==◌, if◌then◌else◌, length, get_elem?, length-append, length-set,
  length-replicate, get_elem?-set_self, get_elem?-set_ne, get_elem?-snoc, get_elem?-append,
  get_elem?-in_range, mod-eq_once, abort, ok,
}
use univr_info_workshop.Error.{ErrorCode}
use univr_info_workshop.Posix.Queue.{Queue, new, enqueue, send, deref, cell}

-- The slot that is `i` places after the tail.
abbrev pub place : {M : Type 0} → Queue M → ℕ → ℕ
place q i = (q.tail + i) % q.size

-- `q` holds `xs`: the indices are in range, the head is where the next message goes, and the
-- places from the tail on point to blocks with the messages of `xs` in order.
pub record Represents {M : Type 0} (q : Queue M) (xs : List M) : Type 0 where
  pub size_pos : 0 < q.size
  pub size_small : q.size < 2 ^ 62
  pub slots : length q.messages ≡ q.size
  pub tail_in : q.tail < q.size
  pub count : q.n_elements ≡ length xs
  pub room : q.n_elements ≤ q.size
  pub head_at : q.head ≡ place q q.n_elements
  pub view : (i : ℕ) → i < length xs → cell q (place q i) ≡ get_elem? xs i

-- The specification: a bounded queue of messages, oldest first.
unfoldable pub push : {M : Type 0} → ℕ → List M → M → ErrorCode × List M
push cap xs m =
    if length xs == cap
    then (ErrorCode.error_resource_not_available, xs)
    else (ErrorCode.success, xs ++ m ∷ [])

unfoldable pub pop : {M : Type 0} → List M → ErrorCode × Option M × List M
pop [] = (ErrorCode.error_timeout, none, [])
pop (x ∷ xs) = (ErrorCode.success, some x, xs)

-- `Queue_New` gives an empty queue of the size that it is given, if the initialisations succeed.
pub new-Represents :
    {M : Type 0} (size : ℕ) (memory : Bool) (mutex_init cond_init : ℕ) {q : Queue M}
    → 0 < size
    → size < 2 ^ 62
    → new size memory mutex_init cond_init ≡ ok (some q)
    → Represents q [] × (q.size ≡ size)
unfolding new
new-Represents size memory mutex_init cond_init h k e =
    ground (arith, length-replicate {A = Option ℕ} size none, mod-eq_of_lt h)

deref-append :
    {M : Type 0} (bs cs : List M) (slot : Option (Option ℕ)) {v : M}
    → deref bs slot ≡ some v
    → deref (bs ++ cs) slot ≡ some v
deref-append bs cs none h = ground arith
deref-append bs cs (some none) h = ground arith
deref-append bs cs (some (some p)) h = get_elem?-append bs cs p h

module _ {M : Type 0} (q : Queue M) (m : M) where
  -- A new message leaves the messages in the other slots, and is what its own slot points to.
  cell-enqueue_ne : (j : ℕ) {v : M} → q.head ≢ j → cell q j ≡ some v → cell (enqueue q m) j ≡ some v
  cell-enqueue_ne j n e =
      rw (get_elem?-set_ne q.messages q.head j (some (length q.blocks)) n)
        (deref-append q.blocks (m ∷ []) (get_elem? q.messages j) e)

  cell-enqueue_self : q.head < length q.messages → cell (enqueue q m) q.head ≡ some m
  cell-enqueue_self h =
      rw (get_elem?-set_self q.messages q.head (some (length q.blocks)) h)
        (get_elem?-snoc q.blocks m)

module _ {M : Type 0} (q : Queue M) (m : M) (xs : List M) (r : Represents q xs) where
  open r use {size_pos, size_small, slots, tail_in, count, room, head_at, view}

  place-bound : (i : ℕ) → place q i < q.size
  place-bound i = mod-lt _ size_pos

  -- Before the queue is full, the places in use are not the place that is written.
  head-ne-place : (i : ℕ) → i < length xs → length xs < q.size → q.head ≢ place q i
  head-ne-place i h k = ground (
    arith,
    mod-eq_once (q.tail + i) q.size (omega arith),
    mod-eq_once (q.tail + q.n_elements) q.size (omega arith),
  )

  enqueue-view :
      length xs < q.size
      → (i : ℕ) → i < suc (length xs)
      → cell (enqueue q m) (place q i) ≡ get_elem? (xs ++ m ∷ []) i
  enqueue-view k i h = elim (dec_lt i (length xs)) [
    | yes old ↦
        let (v, e) = get_elem?-in_range xs i old in
        cell-enqueue_ne q m (place q i) (head-ne-place i old k) (view i old ∙ e)
        ∙ sym (get_elem?-append xs (m ∷ []) i e)
    | no last ↦
        let e : i ≡ length xs = omega arith in
        rw (e, get_elem?-snoc, ← count, ← head_at)
          (cell-enqueue_self q m (rw slots (rw head_at (place-bound q.n_elements))))
  ]

  pub enqueue-Represents : length xs < q.size → Represents (enqueue q m) (xs ++ m ∷ [])
  enqueue-Represents k = record {
    size_pos = size_pos;
    size_small = size_small;
    slots = length-set q.messages q.head (some (length q.blocks)) ∙ slots;
    tail_in = tail_in;
    count = omega (arith, length-append xs (m ∷ []));
    room = omega arith;
    head_at = ground (
      arith,
      mod-eq_once (q.tail + q.n_elements) q.size (omega arith),
      mod-eq_once (q.tail + suc q.n_elements) q.size (omega arith),
      mod-eq_once (q.head + 1) q.size (omega (arith, place-bound q.n_elements)),
    );
    view = λ i h. enqueue-view k i (omega (arith, length-append xs (m ∷ [])));
  }

-- The head of a queue that holds messages is a place of the array.
pub head-in_range :
    {M : Type 0} (q : Queue M) (xs : List M) → Represents q xs → q.head < length q.messages
head-in_range q xs r = rw (r.slots, r.head_at) (mod-lt (q.tail + q.n_elements) r.size_pos)

-- A successful `Queue_Send` adds the message behind the others; on a full queue the call is
-- refused and changes nothing. The waiting receiver is signalled exactly when the queue was empty.
pub send_refines :
    {M : Type 0} (q : Queue M) (m : M) (xs : List M)
    → Represents q xs
    → (q' : Queue M) × (send 0 true q m ≡ ok ((push q.size xs m).0, q', length xs == 0))
      × Represents q' (push q.size xs m).1
      × (q'.size ≡ q.size)
unfolding send push
send_refines q m xs r = elim (ℕ_discrete (length xs) q.size) [
  | yes full ↦ (q, ground (arith, r.size_pos), ground arith, refl)
  | no more ↦ (
    enqueue q m,
    ground (arith, r.room, r.count, r.size_small, head-in_range q xs r),
    ground (arith, enqueue-Represents q m xs r (omega (arith, r.room, r.count))),
    refl,
  )
]

-- `Queue_Send` without the mutex, or without memory for the copy, stores nothing.
pub send_refused :
    {M : Type 0} (lock : ℕ) (memory : Bool) (q : Queue M) (m : M)
    → (lock ≢ 0 → send lock memory q m ≡ ok (ErrorCode.failure, q, false))
      × (lock ≡ 0 → q.n_elements ≢ q.size → send lock false q m ≡ abort)
unfolding send
send_refused lock memory q m = (λ h. ground arith, λ h k. ground arith)
