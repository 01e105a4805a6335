-- ===== src/Esp32/Semaphore/Gives.antt =====
-- The two semaphores side by side.
use univr_info_workshop.Common.{ℕ, ◌<◌, ◌≡◌, refl, true, false, some, ok, abort}
use univr_info_workshop.Error.{ErrorCode}
use univr_info_workshop.Posix.Semaphore
use univr_info_workshop.Service.Main.{give_semaphore}
use univr_info_workshop.Esp32.Semaphore.{Binary, take, give}

-- The device's semaphore gives what it was given and no more: a free one is taken and is then held, a
-- held one runs into the timeout, where the take is not to wait for ever, and is still held, and a
-- give frees a held one.
pub take_lem :
    (f : Binary) (s : f.Handle) (timeout_ms : ℕ)
    → f.ms_to_ticks timeout_ms < f.max_delay
    → (f.is_free s ≡ true
        → (s' : f.Handle) × (take f (some s) timeout_ms ≡ ok (ErrorCode.success, s'))
          × (f.is_free s' ≡ false))
      × (f.is_free s ≡ false
          → (take f (some s) timeout_ms ≡ ok (ErrorCode.error_timeout, s))
            × ((s' : f.Handle) × (give f (some s) ≡ ok (ErrorCode.success, s'))
                × (f.is_free s' ≡ true)))
unfolding take give
take_lem f s timeout_ms finite = (
  (λ e. let (s', t, held) = f.taken s (f.ms_to_ticks timeout_ms) e in (s', rw t, held)),
  λ e.
      let t = f.timed_out s (f.ms_to_ticks timeout_ms) e finite in
      let (s', g, freed) = f.given s e in (rw t, (s', rw g, freed)),
)

-- The adapters differ on a give of a semaphore that is free already: on the device it fails, so a
-- service that ends with such a termination semaphore reboots the program; on the PC it succeeds, and
-- the service ends.
pub give-differs :
    (f : Binary) (s : f.Handle) (termination_semaphore : ℕ)
    → f.is_free s ≡ true
    → (give f (some s) ≡ ok (ErrorCode.failure, s))
      × (give_semaphore (some termination_semaphore) ErrorCode.failure ≡ abort)
      × ((signal : ℕ)
          → Semaphore.give signal (record { locked = false })
            ≡ ok (ErrorCode.success, record { locked = false }))
      × (give_semaphore (some termination_semaphore) ErrorCode.success ≡ ok tt)
unfolding give Semaphore.give
give-differs f s termination_semaphore e =
    let g = f.refused s e in (rw g, refl, (λ signal. refl), refl)
