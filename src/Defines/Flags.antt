-- ===== src/Defines/Flags.antt =====
-- A word as a set of flags.
use univr_info_workshop.Common.{
  ℕ, ◌-◌, ◌^◌, ◌<◌, ◌≡◌, Bool, true, false, arith, ◌==◌, if◌then◌else◌,
}
use univr_info_workshop.Common.Bits.{
  bit, bit-lt-two, bit-bit_and, bit-bit_or, bit-pow, bit_complement, bit_and-pow, bit_or-lt,
  bit_and-le, pow-lt-pow,
}
use native.Mathlib.Nat.{one-le-pow}
use Prim.Native.Nat.{bit_and, bit_or}
use univr_info_workshop.Defines.{bit_set, bit_clr, bit_isset, bit_sete}

bit_isset_lem : (v b : ℕ) → bit_isset v b ≡ (bit b v == 1)
unfolding bit_isset
bit_isset_lem v b = ground (arith, bit_and-pow v b, bit-lt-two b v, one-le-pow b 2)

bit_isset-bit_set :
    (v b c : ℕ) → bit_isset (bit_set v b) c ≡ (if b == c then true else bit_isset v c)
unfolding bit_set
bit_isset-bit_set v b c = ground (
  arith,
  bit_isset_lem (bit_or v (2 ^ b)) c,
  bit_isset_lem v c,
  bit-bit_or c v (2 ^ b),
  bit-pow c b,
  bit-lt-two c v,
)

bit_isset-bit_clr :
    (v b c : ℕ)
    → b < 64
    → c < 64
    → bit_isset (bit_clr v b) c ≡ (if b == c then false else bit_isset v c)
unfolding bit_clr
bit_isset-bit_clr v b c h k = ground (
  arith,
  bit_isset_lem (bit_and v (2 ^ 64 - 1 - 2 ^ b)) c,
  bit_isset_lem v c,
  bit-bit_and c v (2 ^ 64 - 1 - 2 ^ b),
  bit_complement c b 64 k h,
  bit-lt-two c v,
)

-- A word of 64 bits is a set of 64 flags. Setting a flag sets it, clearing it clears it, and
-- `BIT_SETE` gives it the value asked for; the other 63 flags stay as they were, and the result
-- fits the word again.
pub bit_isset-bit_sete :
    (v b c : ℕ)
    → v < 2 ^ 64
    → b < 64
    → c < 64
    → (bit_isset (bit_set v b) c ≡ (if b == c then true else bit_isset v c))
      × (bit_isset (bit_clr v b) c ≡ (if b == c then false else bit_isset v c))
      × ((e : Bool)
          → (bit_isset (bit_sete v b e) c ≡ (if b == c then e else bit_isset v c))
            × (bit_sete v b e < 2 ^ 64))
unfolding bit_sete bit_set bit_clr
bit_isset-bit_sete v b c h k l = (
  bit_isset-bit_set v b c,
  bit_isset-bit_clr v b c k l,
  λ e.
      elim e
        as (λ e.
          (bit_isset (bit_sete v b e) c ≡ (if b == c then e else bit_isset v c))
          × (bit_sete v b e < 2 ^ 64)) [
            | true ↦ (bit_isset-bit_set v b c, bit_or-lt 64 v (2 ^ b) h (pow-lt-pow b 64 k))
            | false ↦
                (bit_isset-bit_clr v b c k l, omega (arith, bit_and-le v (2 ^ 64 - 1 - 2 ^ b)))
          ],
)
