-- ===== src/Posix/Queue/Memory.antt =====
-- The memory of a queue of queue.c: what Queue_New allocates, what Queue_Send adds, and what
-- Queue_Delete gives back.
use univr_info_workshop.Common.{
  ℕ, ◌≡◌, refl, sym, subst, ap, ◌≢◌, ◌∙◌, Bool, true, false, Option, none, some, List, [], ◌∷◌,
  ◌++◌, map, append-nil, append_assoc, arith, ◌==◌, ◌!=◌, if◌then◌else◌, Bool-cases, inl, inr, ok,
  ◌>>=◌, >>=-eq-ok,
}
use univr_info_workshop.Error.{ErrorCode, is_success}
use univr_info_workshop.Posix.Time.{Timeval}
use univr_info_workshop.Posix.Queue.{Queue, new, send, take_message, receive, alone}
use univr_info_workshop.Posix.Queue.Trace.{Call, sends, receives, Reply, call, calls}

-- The allocated blocks that belong to a queue: the struct, the array of pointers, and a block for
-- each message.
pub data Block (M : Type 0) : Type 0 where
  struct array : Block M
  message : M → Block M

module _ {M : Type 0} where
  -- The blocks besides the struct; xcalloc gives no array for a queue of no places.
  abbrev pub contents : Queue M → List (Block M)
  contents q = (if q.size == 0 then [] else Block.array ∷ []) ++ map Block.message q.blocks

  pub allocated : Queue M → List (Block M)
  allocated q = Block.struct ∷ contents q

  -- `Queue_Delete`: what is still allocated when it returns. It calls free on the struct only.
  pub delete : Option (Queue M) → List (Block M)
  delete none = []
  delete (some q) = contents q

  -- The messages whose sends were accepted.
  unfoldable pub accepted : List (Call M) → List (Reply M) → List M
  accepted (sends m ∷ cs) (r ∷ rs) =
      let rest = accepted cs rs in if is_success r.0 then m ∷ rest else rest
  accepted (receives _ _ ∷ cs) (r ∷ rs) = accepted cs rs
  accepted _ _ = []

  -- A queue of the same size whose message blocks have some more behind them.
  abbrev pub Grows : Queue M → List M → Queue M → Type 0
  Grows q ms q' = (q'.blocks ≡ q.blocks ++ ms) × (q'.size ≡ q.size)

  Grows-refl : (q : Queue M) → Grows q [] q
  Grows-refl q = (sym (append-nil q.blocks), refl)

  take_message-Grows :
      (q : Queue M) (e : ErrorCode) (m : Option M) (q' : Queue M)
      → take_message q ≡ ok (e, m, q')
      → Grows q [] q'
  unfolding take_message
  take_message-Grows q e m q' h = ground (arith, append-nil q.blocks)

  receive-Grows :
      (now : Timeval) (timeout_ms : ℕ) (q : Queue M) (e : ErrorCode) (m : Option M) (q' : Queue M)
      → receive 0 now alone q timeout_ms ≡ ok (e, m, q')
      → Grows q [] q'
  unfolding receive
  receive-Grows now timeout_ms q e m q' h = elim (Bool-cases (q.n_elements != 0)) [
    | inl some_there ↦
        let taken : receive 0 now alone q timeout_ms ≡ take_message q = rw (receive, some_there) in
        take_message-Grows q e m q' (sym taken ∙ h)
    | inr empty ↦ ground (arith, append-nil q.blocks)
  ]

  send-Grows :
      (q : Queue M) (m : M) (e : ErrorCode) (q' : Queue M) (signalled : Bool)
      → send 0 true q m ≡ ok (e, q', signalled)
      → Grows q (if is_success e then m ∷ [] else []) q'
  unfolding send
  send-Grows q m e q' signalled h = ground (arith, append-nil q.blocks)

  call-Grows :
      (q : Queue M) (c : Call M) (r : Reply M) (q' : Queue M)
      → call q c ≡ ok (r, q')
      → Grows q (accepted (c ∷ []) (r ∷ [])) q'
  unfolding call accepted
  call-Grows q (sends m) r q' h =
      let ((e, q₁, signalled), s, f) =
        >>=-eq-ok (send 0 true q m) (λ (e, q', signalled). ok ((e, none), q')) h in
      let last : Reply M × Queue M = ((e, none), q₁) in
      let out : last ≡ (r, q') = cc in
      subst (λ o. Grows q (accepted (sends m ∷ []) (o.0 ∷ [])) o.1) out
        (send-Grows q m e q₁ signalled s)
  call-Grows q (receives now timeout_ms) r q' h =
      let ((e, m, q₁), s, f) =
        >>=-eq-ok (receive 0 now alone q timeout_ms) (λ (e, m, q'). ok ((e, m), q')) h in
      let last : Reply M × Queue M = ((e, m), q₁) in
      let out : last ≡ (r, q') = cc in
      subst (λ o. Grows q [] o.1) out (receive-Grows now timeout_ms q e m q₁ s)

  accepted-cons :
      (c : Call M) (r : Reply M) (cs : List (Call M)) (rs : List (Reply M))
      → accepted (c ∷ cs) (r ∷ rs) ≡ accepted (c ∷ []) (r ∷ []) ++ accepted cs rs
  unfolding accepted
  accepted-cons (sends m) (e, x) cs rs = ground arith
  accepted-cons (receives now timeout_ms) r cs rs = refl

  calls-Grows :
      (q : Queue M) (cs : List (Call M)) (rs : List (Reply M)) (q' : Queue M)
      → calls q cs ≡ ok (rs, q')
      → Grows q (accepted cs rs) q'
  unfolding calls accepted
  calls-Grows q [] rs q' h =
      let last : List (Reply M) × Queue M = ([], q) in
      let out : last ≡ (rs, q') = cc in
      subst (λ o. Grows q (accepted [] o.0) o.1) out (Grows-refl q)
  calls-Grows q (c ∷ cs) rs q' h =
      let ((r, q₁), first, f) =
        >>=-eq-ok (call q c) (λ (r, q₁). calls q₁ cs >>= λ (rs', q₂). ok (r ∷ rs', q₂)) h in
      let ((rs', q₂), others, g) = >>=-eq-ok (calls q₁ cs) (λ (rs', q₂). ok (r ∷ rs', q₂)) f in
      let last : List (Reply M) × Queue M = (r ∷ rs', q₂) in
      let out : last ≡ (rs, q') = cc in
      let one = call-Grows q c r q₁ first in
      let more = calls-Grows q₁ cs rs' q₂ others in
      let grown : Grows q (accepted (c ∷ cs) (r ∷ rs')) q₂ = (
        more.0
            ∙ ap (λ l. l ++ accepted cs rs') one.0
            ∙ append_assoc q.blocks (accepted (c ∷ []) (r ∷ [])) (accepted cs rs')
            ∙ ap (λ l. q.blocks ++ l) (sym (accepted-cons c r cs rs')),
        more.1 ∙ one.1,
      ) in
      subst (λ o. Grows q (accepted (c ∷ cs) o.0) o.1) out grown

new-contents :
    {M : Type 0} (size : ℕ) (memory : Bool) (mutex_init cond_init : ℕ) (q : Queue M)
    → new size memory mutex_init cond_init ≡ ok (some q)
    → (q.size ≡ size) × (q.blocks ≡ [])
unfolding new
new-contents size memory mutex_init cond_init q e = ground arith

-- What a queue leaves behind: from `Queue_New`, over any sequence of calls that comes back, to
-- `Queue_Delete`, the array of pointers is never given back, and neither is the block of any message
-- whose send was accepted, received or not; only the struct is.
pub delete-calls :
    {M : Type 0} (size : ℕ) (memory : Bool) (mutex_init cond_init : ℕ) (q q' : Queue M)
    (cs : List (Call M)) (rs : List (Reply M))
    → size ≢ 0
    → new size memory mutex_init cond_init ≡ ok (some q)
    → calls q cs ≡ ok (rs, q')
    → (delete (some q') ≡ Block.array ∷ map Block.message (accepted cs rs))
      × (allocated q' ≡ Block.struct ∷ delete (some q'))
unfolding delete allocated
delete-calls size memory mutex_init cond_init q q' cs rs nonzero created ran =
    let (sized, none_yet) = new-contents size memory mutex_init cond_init q created in
    let (grown, same) = calls-Grows q cs rs q' ran in
    let places : (q'.size == 0) ≡ false = ground arith in
    let blocks : q'.blocks ≡ accepted cs rs = grown ∙ ap (λ l. l ++ accepted cs rs) none_yet in
    (rw (places, blocks), refl)
