-- ===== src/Defines/Tests.antt =====
-- The helpers of defines.h at concrete inputs.
use univr_info_workshop.Common.{ℕ, ◌≡◌, refl, none, some, [], replicate, ok}
use univr_info_workshop.Defines.{Memory, Buffer, xmalloc, buffer_alloc, buffer_free, bit_clr}
use univr_info_workshop.Defines.Buffers.{released, buffer_alloc-buffer_free}

cleared : bit_clr 0xf0 5 ≡ 0xd0
unfolding bit_clr
cleared = refl

abbrev nothing : Memory
nothing = λ p. none

-- Nothing is allocated for a size of 0.
empty_block : xmalloc 0 none [] nothing ≡ ok (none, nothing)
unfolding xmalloc
empty_block = refl

buffer_alloc-buffer_free_example :
    (b : Buffer) × (memory' memory'' : Memory) × (buffer_alloc 3 (some 16) nothing
      ≡ ok (b, memory'))
    × (b.length ≡ 3)
    × (b.buffer ≡ some 16)
    × (memory' 16 ≡ some (replicate 3 0))
    × (buffer_free b memory' ≡ ok (released, memory''))
    × ((q : ℕ) → memory'' q ≡ nothing q)
    × (buffer_free released memory'' ≡ ok (released, memory''))
buffer_alloc-buffer_free_example = buffer_alloc-buffer_free 2 16 nothing refl
