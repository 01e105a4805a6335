-- ===== src/Common/Blocks.antt =====
-- Blocks of memory by address.
use Prim.Native.Nat.{ℕ}
use mathlib.Core.Path.{◌≡◌}
use mathlib.Core.Logic.{◌≢◌}
use mathlib.Core.Bool.{true, false}
use mathlib.Core.Option.{Option, none}
use native.Mathlib.Omega.{arith}
use univr_info_workshop.Common.Tests.{◌==◌, ==_iff, if◌then◌else◌, Bool-cases}
use mathlib.Core.Logic.{inl, inr}
use mathlib.Core.Path.{sym, ap, ◌∙◌}

-- The blocks that are allocated, with what is in them.
abbrev pub Heap : Type 0 → Type 0
Heap A = ℕ → Option A

abbrev pub put : {A : Type 0} → Heap A → ℕ → Option A → Heap A
put heap p b = λ q. if p == q then b else heap q

pub ==_refl : (p : ℕ) → (p == p) ≡ true
==_refl p = ground arith

pub ==_ne : (p q : ℕ) → p ≢ q → (p == q) ≡ false
==_ne p q h = ground arith

module _ {A : Type 0} (heap : Heap A) (p : ℕ) (b : Option A) where
  pub put_same : put heap p b p ≡ b
  put_same = rw (==_refl p)

  pub put_other : (q : ℕ) → p ≢ q → put heap p b q ≡ heap q
  put_other q h = rw (==_ne p q h)

  -- A block that is taken and given back leaves the heap as it was.
  pub put_back : (q : ℕ) → heap p ≡ none → put (put heap p b) p none q ≡ heap q
  put_back q e = elim (Bool-cases (p == q)) [
    | inl same ↦ rw same (sym (ap heap (sym ((==_iff p q).0 same)) ∙ e))
    | inr other ↦ rw other
  ]
