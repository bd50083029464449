-- ===== src/Config/MTls/Validity.antt =====
-- How long the generated certificates are valid.
use supernetes.Prelude.{ℕ, ◌+◌, ◌*◌, ◌≤◌, ◌<◌, ◌≡◌, arith}
use supernetes.Config.MTls.{validity_period, add_duration}

-- Up to 106751 days, a certificate is valid for exactly the days asked for. From one day more up to
-- 213503 days, it expires before it is valid: the product of the validity overflows.
pub add_duration-validity_period :
    (time days : ℕ)
    → 9223372036854775808 < time
    → (days ≤ 106751 → add_duration time (validity_period days) ≡ time + days * 86400000000000)
      × (106751 < days → days ≤ 213503 → add_duration time (validity_period days) < time)
unfolding add_duration validity_period
add_duration-validity_period time days h = (λ few. ground arith, λ many some. ground arith)
