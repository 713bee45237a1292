-- ===== src/Service/Health.antt =====
-- cmd/asset-optimizer/health.go: the answer of the health endpoint, from `IsClosed` and `Healthy` of
-- internal/mq/connection.go. A connection is `none` if it is nil, else it has its flag.
use geul_asset_optimizer.Base.{ℕ, String, Bool, true, false, Option, none, some, is_none, ◌≡◌, refl}
use geul_asset_optimizer.Errors.{Error}

pub record HealthStatus : Type 0 where
  pub status : String
  pub postgresql : Bool

unfoldable pub is_closed : Option Bool → Bool
is_closed none = true
is_closed (some closed) = closed

unfoldable pub healthy : Option Bool → Option Error → Bool
unfolding is_closed
healthy connection ping = elim (is_closed connection) [ true ↦ false | false ↦ is_none ping ]

abbrev status_code : Bool → ℕ
status_code true = 200
status_code false = 503

abbrev status_text : Bool → String
status_text true = "ok"
status_text false = "degraded"

-- The code and the body.
unfoldable pub health_handler : Option Bool → Option Error → ℕ × HealthStatus
unfolding healthy
health_handler connection ping =
    let up = healthy connection ping in
    (status_code up, record { status = status_text up; postgresql = up })

health_test : (health_handler (some false) none).0 ≡ 200
unfolding health_handler
health_test = refl

closed_health_test :
    health_handler (some true) none ≡ (503, record { status = "degraded"; postgresql = false })
unfolding health_handler
closed_health_test = refl
