-- ===== src/Esp32/Wifi/Retries.antt =====
-- The retries of the Wi-Fi connection.
use univr_info_workshop.Common.{
  ℕ, zero, suc, ◌+◌, ◌-◌, ◌≤◌, ◌≡◌, refl, true, false, List, [], ◌∷◌, ◌++◌, replicate, arith, ltb,
  ok,
}
use univr_info_workshop.Error.{ErrorCode}
use univr_info_workshop.Esp32.Wifi.{
  Context, Incoming, Action, handle, handle_all, connect_maximum_retry,
}
use Prim.Native.Nat.{min}
use native.Mathlib.Decide.{dec_lt}

-- The count of retries stays within its bound at every event, and while the connection stands it
-- is 0.
pub record IsValid (ctx : Context) : Type 0 where
  pub bounded : ctx.connection_retry_count ≤ connect_maximum_retry
  pub fresh : ctx.is_connected ≡ true → ctx.connection_retry_count ≡ 0

handle-IsValid :
    (ctx : Context) (e : Incoming)
    → IsValid ctx
    → (out : Context × List Action) × (handle true ErrorCode.success ctx e ≡ ok out) × IsValid out.0
unfolding handle
handle-IsValid ctx Incoming.sta_disconnected v =
    elim (dec_lt ctx.connection_retry_count connect_maximum_retry) [
      | yes more ↦ (
        (
          record { is_connected = false; connection_retry_count = ctx.connection_retry_count + 1 },
          Action.connects ∷ [],
        ),
        ground arith,
        ground arith,
      )
      | no tired ↦ ((record ctx { is_connected = false }, []), ground arith, ground arith)
    ]
handle-IsValid ctx Incoming.sta_start v = ((ctx, Action.connects ∷ []), refl, v)
handle-IsValid ctx Incoming.sta_connected v =
    ((record { is_connected = true; connection_retry_count = 0 }, []), refl, ground arith)
handle-IsValid ctx Incoming.wifi_other v = ((ctx, []), refl, v)
handle-IsValid ctx Incoming.sta_got_ip v = (_, refl, v)
handle-IsValid ctx Incoming.sta_lost_ip v = (_, refl, v)
handle-IsValid ctx Incoming.ap_sta_ip_assigned v = (_, refl, v)
handle-IsValid ctx Incoming.ip_other v = ((ctx, []), refl, v)

-- Any sequence of events is handled to its end, if the calls that it makes succeed; afterwards there
-- have been at most five retries since the last connection, and none while connected.
pub handle_all-IsValid :
    (ctx : Context) (es : List Incoming)
    → IsValid ctx
    → (out : Context × List Action) × (handle_all ctx es ≡ ok out) × IsValid out.0
unfolding handle_all
handle_all-IsValid ctx [] v = ((ctx, []), refl, v)
handle_all-IsValid ctx (e ∷ es) v =
    let ((ctx₁, acts), p, v₁) = handle-IsValid ctx e v in
    let ((ctx₂, rest), q, v₂) = handle_all-IsValid ctx₁ es v₁ in
    ((ctx₂, acts ++ rest), rw (p, q), v₂)

disconnects :
    (n k : ℕ) (ctx : Context)
    → k ≡ min n (connect_maximum_retry - ctx.connection_retry_count)
    → (ctx' : Context) × (handle_all ctx (replicate n Incoming.sta_disconnected)
        ≡ ok (ctx', replicate k Action.connects))
unfolding handle_all handle
disconnects zero zero ctx e = (ctx, refl)
disconnects zero (suc k) ctx e = absurd (omega arith)
disconnects (suc n) zero ctx e =
    let (ctx', p) = disconnects n 0 (record ctx { is_connected = false }) (omega arith) in
    let tired : ltb ctx.connection_retry_count connect_maximum_retry ≡ false = ground arith in
    (ctx', rw (tired, p))
disconnects (suc n) (suc k) ctx e =
    let (ctx', p) =
      disconnects n k
        (record { is_connected = false; connection_retry_count = ctx.connection_retry_count + 1 })
        (omega arith) in
    let more : ltb ctx.connection_retry_count connect_maximum_retry ≡ true = ground arith in
    (ctx', rw (more, p))

-- After `n` failures in a row the driver has tried to connect again as often as the count left, at
-- most five times, and then it has given up: further failures bring no call of esp_wifi_connect.
pub handle_all-disconnects :
    (n : ℕ) (ctx : Context)
    → (ctx' : Context) × (handle_all ctx (replicate n Incoming.sta_disconnected)
        ≡ ok (
          ctx',
          replicate (min n (connect_maximum_retry - ctx.connection_retry_count)) Action.connects,
        ))
handle_all-disconnects n ctx =
    disconnects n (min n (connect_maximum_retry - ctx.connection_retry_count)) ctx refl
