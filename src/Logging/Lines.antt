-- ===== src/Logging/Lines.antt =====
-- What can be read off the log.
use univr_info_workshop.Common.{
  ℕ, zero, suc, ◌+◌, ◌-◌, ◌*◌, ◌/◌, ◌%◌, ◌^◌, ◌<◌, ◌≤◌, ◌≡◌, refl, ap, ap₂, ◌∙◌, true, false,
  Option, none, some, List, [], ◌∷◌, ◌++◌, ltb, leb, ◌==◌, if◌then◌else◌, codes, arith,
  append_assoc, Bool-cases, inl, inr,
}
use native.Mathlib.Nat.{pow-suc}
use univr_info_workshop.Posix.Time.{Timeval, IsClockTime}
use univr_info_workshop.Logging.{
  Level, level_number, level_letter, get_time, decimal, log_line, log,
}

-- The number before the closing bracket.
unfoldable pub read_decimal : (acc : ℕ) → List ℕ → ℕ
read_decimal acc [] = acc
read_decimal acc (c ∷ s) =
    let rest = read_decimal (acc * 10 + (c - b'0')) s in if c == b')' then acc else rest

-- The level and the time of a line.
abbrev pub level_of : ℕ → Option Level
level_of c =
    if c == b'E'
    then some Level.error
    else if c == b'W'
    then some Level.warning
    else if c == b'I'
    then some Level.info
    else if c == b'D'
    then some Level.debug
    else if c == b'V'
    then some Level.verbose
    else none

abbrev pub read_line : List ℕ → Option Level × ℕ
read_line (l ∷ _ ∷ _ ∷ s) = (level_of l, read_decimal 0 s)
read_line _ = (none, 0)

level_of-level_letter : (level : Level) → level_of (level_letter level) ≡ some level
level_of-level_letter Level.error = refl
level_of-level_letter Level.warning = refl
level_of-level_letter Level.info = refl
level_of-level_letter Level.debug = refl
level_of-level_letter Level.verbose = refl

read_decimal-digit :
    (acc d : ℕ) (s : List ℕ)
    → d < 10
    → read_decimal acc ((b'0' + d) ∷ s) ≡ read_decimal (acc * 10 + d) s
unfolding read_decimal
read_decimal-digit acc d s h =
    let digit : (b'0' + d == b')') ≡ false = ground arith in
    let value : b'0' + d - b'0' ≡ d = omega arith in rw (digit, value)

read_decimal-decimal :
    (k n : ℕ) (s : List ℕ) → n < 10 ^ k → read_decimal 0 (decimal k n ++ s) ≡ read_decimal n s
unfolding decimal
read_decimal-decimal zero n s h = let none_left : n ≡ 0 = omega arith in rw none_left
read_decimal-decimal (suc k) n s h = elim (Bool-cases (ltb n 10)) [
  | inl small ↦
      let same : 0 * 10 + n ≡ n = omega arith in
      rw small (read_decimal-digit 0 n s (ground arith) ∙ ap (λ x. read_decimal x s) same)
  | inr large ↦
      let last : List ℕ = (b'0' + n % 10) ∷ [] in
      let same : n / 10 * 10 + n % 10 ≡ n = omega arith in
      rw large (
        ap (read_decimal 0) (append_assoc (decimal k (n / 10)) last s)
        ∙ read_decimal-decimal k (n / 10) (last ++ s) (omega (arith, pow-suc 10 k))
        ∙ read_decimal-digit (n / 10) (n % 10) s (omega arith)
        ∙ ap (λ x. read_decimal x s) same)
]

-- The log can be read back: a macro prints nothing when its level is above that of the build, and
-- else one line, from which the level and the time can be read again, whatever the tag and the
-- message; the time is the clock's, in whole milliseconds, for clocks below 2 ^ 53 seconds.
pub read_line-log :
    (log_level : ℕ) (level : Level) (now : Timeval) (tag msg : List ℕ)
    → IsClockTime now
    → now.tv_sec < 2 ^ 53
    → (log_level < level_number level → log log_level level now tag msg ≡ [])
      × (level_number level ≤ log_level
          → (line : List ℕ) × (log log_level level now tag msg ≡ line ∷ [])
            × ((time : ℕ) × (read_line line ≡ (some level, time))
                × (time ≡ now.tv_sec * 1000 + now.tv_usec / 1000)))
unfolding log log_line get_time read_decimal
read_line-log log_level level now tag msg clock early = (
  (λ h. let silent : leb (level_number level) log_level ≡ false = ground arith in rw silent),
  λ h.
      let loud : leb (level_number level) log_level ≡ true = ground arith in
      let small : get_time now ≡ now.tv_sec * 1000 + now.tv_usec / 1000 =
        omega (arith, clock.usec_small, early) in
      (
        log_line level (get_time now) tag msg,
        rw loud,
        (
          get_time now,
          ap₂ (λ l t. (l, t)) (level_of-level_letter level)
              (read_decimal-decimal 20 (get_time now)
                (codes ") " ++ (tag ++ (codes ": " ++ (msg ++ 10 ∷ []))))
                (omega (arith, clock.usec_small, early))),
          small,
        ),
      ),
)
