-- ===== src/Logging.antt =====
-- main/src/adapter/logging.h: the macros that log where there is no ESP-IDF. `msg` is the text that the
-- format and its arguments make; what fprintf does with them is not modelled. The log level is that
-- of the build.
pub mod Lines
mod Tests
use univr_info_workshop.Common.{
  ℕ, zero, suc, ◌+◌, ◌*◌, ◌/◌, ◌%◌, ◌^◌, List, [], ◌∷◌, ◌++◌, ltb, leb, if◌then◌else◌, codes,
}
use univr_info_workshop.Posix.Time.{Timeval}

-- The macros LOG_ERROR to LOG_VERBOSE.
pub data Level : Type 0 where
  error warning info debug verbose : Level

-- The LOG_LEVEL from which on a macro prints.
abbrev pub level_number : Level → ℕ
level_number Level.error = 1
level_number Level.warning = 2
level_number Level.info = 3
level_number Level.debug = 4
level_number Level.verbose = 5

abbrev pub level_letter : Level → ℕ
level_letter Level.error = b'E'
level_letter Level.warning = b'W'
level_letter Level.info = b'I'
level_letter Level.debug = b'D'
level_letter Level.verbose = b'V'

-- `__getTime`.
pub get_time : Timeval → ℕ
get_time tv = (tv.tv_sec * 1000 + tv.tv_usec / 1000) % 2 ^ 64

-- A `uint64_t` in decimal digits, as PRIu64 prints it; 20 of them are enough.
pub decimal : (digits n : ℕ) → List ℕ
decimal zero n = []
decimal (suc k) n =
    let rest = decimal k (n / 10) ++ (b'0' + n % 10) ∷ [] in
    if ltb n 10 then (b'0' + n) ∷ [] else rest

-- The line that a macro prints.
pub log_line : Level → (time : ℕ) (tag msg : List ℕ) → List ℕ
unfolding decimal
log_line level time tag msg =
    level_letter level
    ∷ b' '
    ∷ b'('
    ∷ (decimal 20 time ++ (codes ") " ++ (tag ++ (codes ": " ++ (msg ++ 10 ∷ [])))))

-- What a macro prints, by the LOG_LEVEL of the build.
pub log : (log_level : ℕ) → Level → Timeval → (tag msg : List ℕ) → List (List ℕ)
unfolding log_line get_time
log log_level level now tag msg =
    if leb (level_number level) log_level then log_line level (get_time now) tag msg ∷ [] else []
