-- ===== src/Logging/Tests.antt =====
-- A line of the log.
use univr_info_workshop.Common.{
  ℕ, ◌+◌, ◌*◌, ◌/◌, ◌<◌, ◌≤◌, ◌≡◌, refl, some, List, [], ◌∷◌, codes, arith,
}
use univr_info_workshop.Posix.Time.{Timeval}
use univr_info_workshop.Logging.{Level, log, log_line, level_number}
use univr_info_workshop.Logging.Lines.{read_line, read_line-log}

abbrev noon : Timeval
noon = record { tv_sec = 12; tv_usec = 345678 }

printed : log_line Level.info 12345 (codes "hmi") (codes "up") ≡ codes "I (12345) hmi: up\n"
unfolding log_line
printed = refl

read_line-log_example :
    (3 < level_number Level.info → log 3 Level.info noon (codes "hmi") (codes "up") ≡ [])
    × (level_number Level.info ≤ 3
        → (line : List ℕ) × (log 3 Level.info noon (codes "hmi") (codes "up") ≡ line ∷ [])
          × ((time : ℕ) × (read_line line ≡ (some Level.info, time))
              × (time ≡ 12 * 1000 + 345678 / 1000)))
read_line-log_example =
    read_line-log 3 Level.info noon (codes "hmi") (codes "up")
      (record { usec_small = omega arith; sec_small = omega arith }) (omega arith)
