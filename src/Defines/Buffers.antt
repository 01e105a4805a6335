-- ===== src/Defines/Buffers.antt =====
-- The life of a buffer.
use univr_info_workshop.Common.{
  ℕ, suc, ◌≡◌, ◌≢◌, refl, true, false, Option, none, some, List, ◌==◌, replicate, ◌*◌, put,
  put_same, put_back, ok, abort, arith, ◌↔◌,
}
use univr_info_workshop.Defines.{Memory, Buffer, xcalloc, buffer_alloc, buffer_free, free}

-- The buffer that no memory belongs to.
abbrev pub released : Buffer
released = record { is_dynamic = false; length = 0; buffer = none }

free_allocated :
    (p : ℕ) (memory : Memory) (bytes : List ℕ)
    → memory p ≡ some bytes
    → free (some p) memory ≡ ok (put memory p none)
free_allocated p memory bytes e = rw (free, e)

-- The life of a buffer. When calloc finds a block that was not allocated, `Buffer_Alloc` gives a
-- dynamic buffer of the size asked for, in zeroed memory of that size; `Buffer_Free` then gives the
-- memory back exactly, and leaves a buffer that it may be called with again without effect.
pub buffer_alloc-buffer_free :
    (n p : ℕ) (memory : Memory)
    → memory p ≡ none
    → (b : Buffer) × (memory' memory'' : Memory) × (buffer_alloc (suc n) (some p) memory
        ≡ ok (b, memory'))
      × (b.length ≡ suc n)
      × (b.buffer ≡ some p)
      × (memory' p ≡ some (replicate (suc n) 0))
      × (buffer_free b memory' ≡ ok (released, memory''))
      × ((q : ℕ) → memory'' q ≡ memory q)
      × (buffer_free released memory'' ≡ ok (released, memory''))
unfolding buffer_alloc buffer_free xcalloc
buffer_alloc-buffer_free n p memory fresh =
    let nonzero : (suc n == 0) ≡ false = ground arith in
    let whole : 1 * suc n ≡ suc n = omega arith in
    let zeros : Option (List ℕ) = some (replicate (suc n) 0) in
    let memory' : Memory = put memory p zeros in
    let freed = free_allocated p memory' (replicate (suc n) 0) (put_same memory p zeros) in
    (
      record { is_dynamic = true; length = suc n; buffer = some p },
      memory',
      put memory' p none,
      rw (nonzero, whole),
      refl,
      refl,
      put_same memory p zeros,
      rw freed,
      (λ q. put_back memory p zeros q fresh),
      refl,
    )

-- `xcalloc` stops the program exactly when memory was asked for and there is none.
pub xcalloc-abort :
    (num size : ℕ) (block : Option ℕ) (memory : Memory)
    → (xcalloc num size block memory ≡ abort) ↔ ((num ≢ 0) × (size ≢ 0) × (block ≡ none))
unfolding xcalloc
xcalloc-abort num size none memory = (ground arith, ground arith)
xcalloc-abort num size (some p) memory = (ground arith, ground arith)
