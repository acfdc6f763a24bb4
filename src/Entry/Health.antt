-- ===== src/Entry/Health.antt =====
-- services/api/src/main.py: `_check_dependencies`, `health` and `metrics_endpoint`.
use ai_calling_agent.Prelude.{
  ℕ, String, Bool, true, false, not, ◌&&◌, ◌==◌, Option, none, some, if◌then◌else◌,
}
use ai_calling_agent.Accounts.Models.{Reply, ok, raised, text_is}
use ai_calling_agent.Accounts.Tokens.{Claims}
use ai_calling_agent.Monitoring.{MetricsRegistry, MetricsSnapshot, snapshot}

pub record Checks : Type 0 where
  pub db : String
  pub redis : String

unfoldable pub reachability : Bool → String
reachability true = "ok"
reachability false = "unreachable"

-- Of a Redis that is configured, whether the ping succeeds.
unfoldable pub redis_check : Option Bool → String
unfolding reachability
redis_check none = "not_configured"
redis_check (some ping) = reachability ping

-- `select_ok` says whether `SELECT 1` succeeds.
unfoldable pub check_dependencies : Bool → Option Bool → Checks
unfolding reachability redis_check
check_dependencies select_ok redis = record {
  db = reachability select_ok;
  redis = redis_check redis;
}

pub record HealthAnswer : Type 0 where
  pub status_code : ℕ
  pub status : String
  pub checks : Checks

unfoldable pub is_healthy : Checks → Bool
is_healthy c = c.db == "ok" && not (c.redis == "unreachable")

-- GET /health
unfoldable pub health : Bool → Option Bool → HealthAnswer
unfolding check_dependencies is_healthy
health select_ok redis =
    let checks = check_dependencies select_ok redis in
    if is_healthy checks
    then record { status_code = 200; status = "ok"; checks = checks }
    else record { status_code = 503; status = "degraded"; checks = checks }

pub record MetricsAnswer : Type 0 where
  pub metrics : MetricsSnapshot
  pub checks : Checks

unfoldable pub metrics_answer :
    Checks → MetricsSnapshot × MetricsRegistry → Reply MetricsAnswer × MetricsRegistry
metrics_answer checks (m, r) = (ok (record { metrics = m; checks = checks }), r)

-- GET /metrics
unfoldable pub metrics_endpoint :
    ℕ → Bool → Option Bool → Claims → MetricsRegistry → Reply MetricsAnswer × MetricsRegistry
unfolding text_is metrics_answer check_dependencies snapshot
metrics_endpoint now select_ok redis user registry =
    if text_is user.role "super_admin"
    then metrics_answer (check_dependencies select_ok redis) (snapshot now registry)
    else (raised 403 "super_admin role required", registry)
