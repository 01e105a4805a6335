-- ===== src/Defines/Choices.antt =====
-- The macros of defines.h that choose: MIN, MAX and the early returns.
use univr_info_workshop.Common.{ℕ, ◌+◌, ◌≤◌, ◌≡◌, ◌≢◌, ◌↔◌, refl, Option, none, some, arith}
use univr_info_workshop.Error.{ErrorCode}
use univr_info_workshop.Defines.{on_null_return, min, max}

-- The two results are the two arguments, the smaller one first.
min-le-max :
    (a b : ℕ) → (min a b ≤ max a b) × (min a b + max a b ≡ a + b) × (min a b ≤ a) × (b ≤ max a b)
unfolding min max
min-le-max a b = ground arith

-- A function goes on exactly when the pointer is not NULL.
on_null_return-none :
    (value : Option ℕ) (error : ErrorCode) → (on_null_return value error ≡ none) ↔ (value ≢ none)
unfolding on_null_return
on_null_return-none none error = (ground arith, λ h. absurd (h refl))
on_null_return-none (some p) error = (λ e. λ h. cc, λ h. refl)
