-- ===== src/Defines.antt =====
-- main/src/core/defines.h: the bit macros, the allocation helpers and `Buffer`. The arguments of the
-- bit macros are words of 64 bits, as `1lu` and the promotions make them. A pointer is an address,
-- NULL is `none`; what malloc and calloc answer is an argument, the address of a block that was not
-- allocated.
pub mod Flags
pub mod Buffers
pub mod Choices
mod Tests
use Prim.Native.Nat.{bit_and, bit_or}
use univr_info_workshop.Common.{
  ℕ, ◌-◌, ◌*◌, ◌^◌, Bool, true, false, ◌||◌, Option, none, some, List, [], ◌==◌, ◌!=◌,
  if◌then◌else◌, ltb, replicate, Heap, put, Outcome, ok, abort, fault, ◌>>=◌,
}
use univr_info_workshop.Error.{ErrorCode, is_success}

-- `BIT`, for an index below 64.
abbrev pub bit_mask : ℕ → ℕ
bit_mask x = 2 ^ x

-- `BIT_SET`.
pub bit_set : (v b : ℕ) → ℕ
bit_set v b = bit_or v (bit_mask b)

-- `BIT_CLR`.
pub bit_clr : (v b : ℕ) → ℕ
bit_clr v b = bit_and v (2 ^ 64 - 1 - bit_mask b)

-- `BIT_ISSET`.
pub bit_isset : (v b : ℕ) → Bool
bit_isset v b = bit_and v (bit_mask b) != 0

-- `BIT_SETE`.
pub bit_sete : (v b : ℕ) → Bool → ℕ
unfolding bit_set bit_clr
bit_sete v b e = if e then bit_set v b else bit_clr v b

-- `ON_ERROR_REBOOT`, `ON_FALSE_REBOOT` and `ON_NULL_REBOOT`.
abbrev pub on_error_reboot : ErrorCode → Outcome (Unit {0})
on_error_reboot e = if is_success e then ok tt else abort

abbrev pub on_false_reboot : Bool → Outcome (Unit {0})
on_false_reboot x = on_error_reboot (if x then ErrorCode.success else ErrorCode.failure)

abbrev pub is_not_null : Option ℕ → Bool
is_not_null none = false
is_not_null (some p) = true

abbrev pub on_null_reboot : Option ℕ → Outcome (Unit {0})
on_null_reboot x = on_false_reboot (is_not_null x)

-- `ON_FALSE_RETURN` and `ON_NULL_RETURN`: the error that the function returns with, or none if it goes on.
pub on_false_return : (condition : Bool) (error : ErrorCode) → Option ErrorCode
on_false_return condition error = if condition then none else some error

pub on_null_return : (value : Option ℕ) (error : ErrorCode) → Option ErrorCode
unfolding on_false_return
on_null_return value error = on_false_return (is_not_null value) error

-- `MIN` and `MAX` of unsigned numbers.
pub min : (a b : ℕ) → ℕ
min a b = if ltb a b then a else b

pub max : (a b : ℕ) → ℕ
max a b = if ltb b a then a else b

-- The bytes of the allocated blocks.
abbrev pub Memory : Type 0
Memory = Heap (List ℕ)

-- What malloc or calloc does with the block that it finds.
abbrev pub allocate : Option ℕ → List ℕ → Memory → Memory
allocate none bytes memory = memory
allocate (some p) bytes memory = put memory p (some bytes)

-- `xmalloc`; `bytes` is what happens to be in the block.
pub xmalloc : (size : ℕ) (block : Option ℕ) (bytes : List ℕ) → Memory → Outcome (Option ℕ × Memory)
xmalloc size block bytes memory =
    if size == 0
    then ok (none, memory)
    else (do done ← on_null_reboot block; ok (block, allocate block bytes memory))

-- `xcalloc`.
pub xcalloc : (num size : ℕ) (block : Option ℕ) → Memory → Outcome (Option ℕ × Memory)
xcalloc num size block memory = if size == 0 || num == 0 then ok (none, memory) else (do
  done ← on_null_reboot block
  ok (block, allocate block (replicate (num * size) 0) memory))

-- free: nothing for NULL, a fault for a block that is not allocated.
abbrev pub free : Option ℕ → Memory → Outcome Memory
free none memory = ok memory
free (some p) memory = elim (memory p) [ none ↦ fault | some bytes ↦ ok (put memory p none) ]

-- `Buffer`.
pub record Buffer : Type 0 where
  pub is_dynamic : Bool
  pub length : ℕ
  pub buffer : Option ℕ

-- `Buffer_Alloc`.
pub buffer_alloc : (size : ℕ) (block : Option ℕ) → Memory → Outcome (Buffer × Memory)
unfolding xcalloc
buffer_alloc size block memory = do
  (p, memory') ← xcalloc 1 size block memory
  ok (record { is_dynamic = true; length = size; buffer = p }, memory')

-- `Buffer_Free`.
pub buffer_free : Buffer → Memory → Outcome (Buffer × Memory)
buffer_free b memory =
    if b.is_dynamic
    then (do
      memory' ← free b.buffer memory
      ok (record { is_dynamic = false; length = 0; buffer = none }, memory'))
    else ok (b, memory)
