-- ===== src/Wifi/Addresses.antt =====
-- IPv4 addresses: the two views of the union agree.
use univr_info_workshop.Common.{ℕ, ◌/◌, ◌^◌, ◌<◌, ◌≡◌, ◌↔◌, ap, true, [], ◌∷◌, ==_iff, arith}
use univr_info_workshop.Wifi.{address_bytes, ipv4_eq, make_ipv4}

-- An address made of four bytes has these bytes, in this order, and fits 32 bits; two such addresses
-- are equal for `IPV4_EQ` exactly when they agree in all four; and every 32-bit value is the address
-- made of its own bytes.
pub make_ipv4_lem :
    (a b c d a' b' c' d' v : ℕ)
    → a < 256
    → b < 256
    → c < 256
    → d < 256
    → a' < 256
    → b' < 256
    → c' < 256
    → d' < 256
    → v < 2 ^ 32
    → (address_bytes (make_ipv4 a b c d) ≡ a ∷ b ∷ c ∷ d ∷ [])
      × ((make_ipv4 a b c d).value < 2 ^ 32)
      × ((ipv4_eq (make_ipv4 a b c d) (make_ipv4 a' b' c' d') ≡ true)
          ↔ ((a ≡ a') × (b ≡ b') × (c ≡ c') × (d ≡ d')))
      × (make_ipv4 v (v / 2 ^ 8) (v / 2 ^ 16) (v / 2 ^ 24) ≡ record { value = v })
unfolding make_ipv4
make_ipv4_lem a b c d a' b' c' d' v ha hb hc hd ha' hb' hc' hd' hv = (
  ground arith,
  omega arith,
  (
    (λ e.
        let same = (==_iff (make_ipv4 a b c d).value (make_ipv4 a' b' c' d').value).0 e in
        (omega arith, omega arith, omega arith, omega arith)),
    λ e. (==_iff (make_ipv4 a b c d).value (make_ipv4 a' b' c' d').value).1 (omega arith),
  ),
  ap (λ (n : ℕ). record { value = n }) (omega arith),
)
