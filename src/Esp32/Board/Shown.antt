-- ===== src/Esp32/Board/Shown.antt =====
-- What the LED of the device shows.
use univr_info_workshop.Common.{
  ℕ, zero, suc, ◌+◌, ◌≡◌, ◌∙◌, refl, ap, Bool, false, none, some, List, arith, ok,
}
use univr_info_workshop.Error.{ErrorCode}
use univr_info_workshop.Service.{Service, ServiceState}
use univr_info_workshop.Service.Main.{Round, Progress, service_main}
use univr_info_workshop.Service.Loop.{events_before_stop, any_stops}
use univr_info_workshop.Hmi.{Rgbw, Context, initial, methods}
use univr_info_workshop.Hmi.Presses.{color_of, presses, show}
use univr_info_workshop.Hmi.Task.{service_main-presses, ready}
use univr_info_workshop.Esp32.Board.{
  Rgb, LedStrip, Board, btn_init, led_init, set_led_color, board_drivers,
}

-- The colour without its white.
abbrev pub rgb_of : Rgbw → Rgb
rgb_of c = record { red = c.r; green = c.g; blue = c.b }

module _ {S : Type 0} (d : LedStrip S) where
  -- The LED of the board is made.
  abbrev pub IsReady : Board S → Type 0
  IsReady b = (h : ℕ) × (b.led_strip ≡ some h) × d.IsMade h b.strip

  led_init-IsReady :
      (b : Board S) → ((led_init d b).0 ≡ ErrorCode.success) × IsReady (led_init d b).1
  unfolding led_init
  led_init-IsReady b =
      let (h, (s, e, made)) = d.made b.strip in
      let (s', f, made') = d.cleared h s made in rw (e, f) (refl, (h, refl, made'))

  set_led_color_lem :
      (color : Rgbw) (b : Board S)
      → IsReady b
      → let (e, b') = set_led_color d color b in
        (e ≡ ErrorCode.success) × IsReady b' × (d.shown b'.strip ≡ rgb_of color)
  unfolding set_led_color
  set_led_color_lem color b (h, e, made) =
      let (s, f, made', kept) = d.written h color.r color.g color.b b.strip made in
      let (s', g, made'', seen) = d.refreshed h s made' in
      rw (e, f, g) (refl, (h, refl, made''), seen ∙ kept)

  show-last :
      (config isr_service isr_add : ErrorCode) (k n : ℕ) (b : Board S)
      → IsReady b
      → d.shown (show (board_drivers d config isr_service isr_add) k (suc n) b).strip
        ≡ rgb_of (color_of (k + n))
  unfolding show
  show-last config isr_service isr_add k zero b r =
      let (e, ready', seen) = set_led_color_lem (color_of k) b r in
      seen ∙ ap (λ i. rgb_of (color_of i)) (omega arith)
  show-last config isr_service isr_add k (suc n) b r =
      let (e, ready', seen) = set_led_color_lem (color_of k) b r in
      show-last config isr_service isr_add (suc k) n (set_led_color d (color_of k) b).1 ready'
      ∙ ap (λ i. rgb_of (color_of i)) (omega arith)

-- What the user sees on the device, on a led_strip component whose calls succeed and whatever the
-- GPIO driver answers: while the HMI service runs and nobody stops it, after `n + 1` presses that
-- reached it the LED shows colour number `n` of the round off, red, green and blue.
pub service_main-shown :
    {S : Type 0} (d : LedStrip S) (config isr_service isr_add give : ErrorCode)
    (delete_returns : Bool) (s : Service) (b : Board S) (rounds : List Round) (n : ℕ)
    → s.state ≡ ServiceState.running
    → s.termination_semaphore ≡ none
    → any_stops rounds ≡ false
    → presses (events_before_stop rounds) ≡ suc n
    → (ctx : Context) × ((b' : Board S) × (service_main
            (methods (board_drivers d config isr_service isr_add))
            give
            delete_returns
            s
            (initial, b)
            rounds
          ≡ ok (Progress.busy s (ctx, b')))
        × (d.shown b'.strip ≡ rgb_of (color_of n)))
service_main-shown d config isr_service isr_add give delete_returns s b rounds n running unset goes
      pressed =
    let drivers = board_drivers d config isr_service isr_add in
    let (ctx, e) =
      (service_main-presses drivers give delete_returns s b rounds running unset).0 goes in
    (
      ctx,
      (
        show drivers 0 (presses (events_before_stop rounds)) (ready drivers s b),
        e,
        rw pressed (
            show-last d config isr_service isr_add 0 n (ready drivers s b)
              (led_init-IsReady d (btn_init config isr_service isr_add s.queue b).1).1
            ∙ ap (λ i. rgb_of (color_of i)) (omega arith)),
      ),
    )
