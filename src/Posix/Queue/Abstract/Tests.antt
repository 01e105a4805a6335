-- ===== src/Posix/Queue/Abstract/Tests.antt =====
-- Abstract queues of two numbers.
use mathlib.Core.Quot
use mathlib.Core.Path.{PathP}
use native.Mathlib.Nat.{ℕ_set}
use univr_info_workshop.Common.{ℕ, ◌≡◌, arith, ok}
use univr_info_workshop.Posix.Queue.Trace.{Call, Reply, call}
use univr_info_workshop.Posix.Queue.Abstract.{Valid, Abstract, BoundedList, contents_of}
use univr_info_workshop.Posix.Queue.Abstract.Equal.{step, fifo_step, Abstract-eq-BoundedList}

Abstract-eq-BoundedList_example :
    (p : Abstract ℕ 2 ≡ BoundedList ℕ 2) × ((v : Valid ℕ 2)
      → PathP (λ i. p i) (Quot.mk v) (contents_of v))
    × PathP (λ i. p i → Call ℕ → Reply ℕ × p i) (step ℕ_set) fifo_step
    × ((v : Valid ℕ 2) (c : Call ℕ)
        → (v' : Valid ℕ 2) × (call v.0 c ≡ ok ((step ℕ_set (Quot.mk v) c).0, v'.0))
          × ((step ℕ_set (Quot.mk v) c).1 ≡ Quot.mk v'))
Abstract-eq-BoundedList_example = Abstract-eq-BoundedList ℕ_set 2 (omega arith) (omega arith)
