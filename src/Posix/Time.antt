-- ===== src/Posix/Time.antt =====
-- The times that main/src/adapter/posix/queue.c and semaphore.c compute with. What gettimeofday
-- and pthread_cond_timedwait answer is an argument of the operations.
use univr_info_workshop.Common.{ℕ, ◌+◌, ◌*◌, ◌<◌}

-- `struct timeval`.
pub record Timeval : Type 0 where
  pub tv_sec : ℕ
  pub tv_usec : ℕ

-- `struct timespec`.
pub record Timespec : Type 0 where
  pub tv_sec : ℕ
  pub tv_nsec : ℕ

abbrev pub one_sec_in_ns : ℕ
one_sec_in_ns = 1000 * 1000 * 1000

-- The time as one number of nanoseconds.
abbrev pub timeval_ns : Timeval → ℕ
timeval_ns t = t.tv_sec * one_sec_in_ns + t.tv_usec * 1000

abbrev pub timespec_ns : Timespec → ℕ
timespec_ns t = t.tv_sec * one_sec_in_ns + t.tv_nsec

-- What gettimeofday documents of its answer; the bound on the seconds keeps sums below 2 ^ 64.
pub record IsClockTime (t : Timeval) : Type 0 where
  pub usec_small : t.tv_usec < 1000000
  pub sec_small : t.tv_sec < 1000000000000000000
