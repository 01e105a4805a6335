-- ===== src/Hmi/Presses.antt =====
-- The colours of the LED, press by press.
use univr_info_workshop.Common.{
  ℕ, zero, suc, ◌+◌, ◌%◌, ◌≡◌, refl, ap, ◌∙◌, true, false, List, [], ◌∷◌, arith, ◌==◌,
  if◌then◌else◌, Bool-cases, inl, inr,
}
use univr_info_workshop.Service.{ServiceEvent}
use univr_info_workshop.Service.Loop.{handle_all}
use univr_info_workshop.Hmi.{Rgbw, Drivers, Context, rgbw, press, handle_event, hmi_event_btn_press}

-- The colour of press number `k`, counted from 0: off, red, green, blue, and again.
unfoldable pub color_of : ℕ → Rgbw
color_of k =
    let n = k % 4 in
    if n == 0
    then rgbw 0 0 0
    else if n == 1
    then rgbw 255 0 0
    else if n == 2
    then rgbw 0 255 0
    else rgbw 0 0 255

-- How many of the events are presses of the button.
unfoldable pub presses : List ServiceEvent → ℕ
presses [] = 0
presses (e ∷ es) = if e.event == hmi_event_btn_press then suc (presses es) else presses es

module _ {D : Type 0} (drivers : Drivers D) where
  -- The drivers after `n` colours were shown, from that of press `k` on.
  unfoldable pub show : (k n : ℕ) → D → D
  show k zero d = d
  show k (suc n) d = show (suc k) n (drivers.set_led_color (color_of k) d).1

-- One press takes the count and the colour to those of the next number.
press_lem :
    (ctx : Context) (k : ℕ)
    → ctx.count ≡ k % 4
    → ((press ctx).count ≡ suc k % 4) × ((press ctx).color ≡ color_of k)
unfolding press color_of
press_lem ctx k h = ground arith

module _ {D : Type 0} (drivers : Drivers D) (ctx : Context) (d : D) (event payload : ℕ) where
  handle_event-press :
      (k : ℕ)
      → ctx.count ≡ k % 4
      → (event == hmi_event_btn_press) ≡ true
      → handle_event drivers event payload (ctx, d)
        ≡ (press ctx, (drivers.set_led_color (color_of k) d).1)
  unfolding handle_event
  handle_event-press k h pressed = rw (pressed, (press_lem ctx k h).1)

  handle_event-other :
      (event == hmi_event_btn_press) ≡ false
      → handle_event drivers event payload (ctx, d) ≡ (ctx, d)
  unfolding handle_event
  handle_event-other other = rw other

-- From a count that belongs to press `k`, the events that are presses show the colours of `k`,
-- `k + 1` and so on, in order and once each; other events show nothing. The count then belongs to
-- the press after them.
pub handle_all-presses :
    {D : Type 0} (drivers : Drivers D) (es : List ServiceEvent) (ctx : Context) (k : ℕ) (d : D)
    → ctx.count ≡ k % 4
    → let after = handle_all (handle_event drivers) (ctx, d) es in
      (after.0.count ≡ (k + presses es) % 4) × (after.1 ≡ show drivers k (presses es) d)
unfolding handle_all presses show
handle_all-presses drivers [] ctx k d h = (omega arith, refl)
handle_all-presses drivers (e ∷ es) ctx k d h = elim (Bool-cases (e.event == hmi_event_btn_press)) [
  | inl pressed ↦
      let (counted, shown) =
        handle_all-presses drivers es (press ctx) (suc k) (drivers.set_led_color (color_of k) d).1
          (press_lem ctx k h).0 in
      let p =
        ap (λ w. handle_all (handle_event drivers) w es)
          (handle_event-press drivers ctx d e.event e.payload k h pressed) in
      rw pressed (ap (λ w. w.0.count) p ∙ omega (arith, counted), ap (λ w. w.1) p ∙ shown)
  | inr other ↦
      let (counted, shown) = handle_all-presses drivers es ctx k d h in
      let p =
        ap (λ w. handle_all (handle_event drivers) w es)
          (handle_event-other drivers ctx d e.event e.payload other) in
      rw other (ap (λ w. w.0.count) p ∙ counted, ap (λ w. w.1) p ∙ shown)
]
