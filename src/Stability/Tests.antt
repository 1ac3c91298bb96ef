-- ===== src/Stability/Tests.antt =====
-- A node with one pod, whose budget changed a minute ago.
use draino.Prelude.{
  ◌≡◌, refl, not, ◌&&◌, List, [], ◌∷◌, some, pos, arith, all, any, lookup, Dict, ◌-ℤ◌,
}
use draino.K8s.{Time}
use draino.Stability.{
  Budget, Call, Configuration, RecoveryEstimationDate, stability_period_accepts_drain,
}
use draino.Stability.Caching.{answer, is_pending, accepts_drain-answer}
use draino.Stability.History.{CheckerEvent, asks, cleans, cache_after, accepts_drain-cached}

abbrev budget_since : Time → Budget
budget_since when = record {
  name = "b";
  creation_timestamp = pos 10;
  conditions =
      record {
        kind = "DisruptionAllowed";
        status = "True";
        last_heartbeat_time = pos 0;
        last_transition_time = when;
        reason = "";
        message = "";
      }
      ∷ [];
}

abbrev call : Call
call = record {
  cache_key = some "n#u1m";
  periods = ("p", record { length = pos 60; source_type = "user/pod"; source_name = "ns/p" }) ∷ [];
  budgets = some (("p", budget_since (pos 100) ∷ []) ∷ []);
}

abbrev config : Configuration
config = record {
  default_stability_period = pos 60;
  estimated_recovery_record_ttl = pos 15;
  cache_cleanup_period = pos 3;
}

-- The budget has changed again.
abbrev changed : Call
changed = record call { budgets = some (("p", budget_since (pos 103) ∷ []) ∷ []) }

abbrev entries : Dict RecoveryEstimationDate
entries = ("m#u1m", record { estimated_recovery = pos 900; ttl = pos 950 }) ∷ []

accepts_drain-answer_example :
    (stability_period_accepts_drain config call (pos 170) entries).0
    ≡ not (is_pending (some "n#u1m") (pos 170) entries) && answer call (pos 170)
accepts_drain-answer_example = accepts_drain-answer config call (pos 170) entries (omega arith)

abbrev events : List CheckerEvent
events = cleans (pos 152) ∷ asks call (pos 150) ∷ asks changed (pos 145) ∷ []

accepts_drain-cached_example :
    (stability_period_accepts_drain config changed (pos 165) (cache_after config events)).0
    ≡ (stability_period_accepts_drain config changed (pos 165) []).0
unfolding all any lookup ◌-ℤ◌
accepts_drain-cached_example =
    accepts_drain-cached config events changed (pos 165) (omega arith) refl
