-- ===== src/Posix/Task/Sleep.antt =====
-- `Task_SleepMs` of main/src/adapter/posix/task.c, which converts milliseconds for usleep.
use univr_info_workshop.Common.{ℕ, ◌*◌, ◌%◌, ◌^◌, ◌<◌, ◌≤◌, ◌≡◌, ◌↔◌, arith}

-- The microseconds that usleep is asked for: a product of 64 bits, which the call converts to a
-- `useconds_t`, an unsigned type of 32 bits on the systems the emulator is built for.
pub sleep_us : (time : ℕ) → ℕ
sleep_us time = time * 1000 % 2 ^ 64 % 2 ^ 32

-- A sleep is never longer than asked for, and it is as long as asked for exactly when the time is below
-- 4294968 milliseconds, about 72 minutes. From there on the thread wakes too early.
pub sleep_us_lem :
    (time : ℕ)
    → time < 2 ^ 32
    → (sleep_us time ≤ time * 1000) × (sleep_us time ≡ time * 1000 ↔ time < 4294968)
unfolding sleep_us
sleep_us_lem time short = (omega arith, (λ e. omega (arith, e), λ small. omega (arith, small)))
