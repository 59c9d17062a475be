-- ===== src/Core/Actions.antt =====
-- crates/argus-core/src/models/action: actions and their policies, and the states that the policies
-- keep (models/alert_manager_state.rs). Instants and durations are counted in nanoseconds.
use argus_rs.Base.{List, Option, String, nat_key, string_key, ℕ}
use argus_rs.Core.Matches.{MonitorMatch}

pub record NotificationMessage : Type 0 where
  pub title : String
  pub body : String

pub record AggregationPolicy : Type 0 where
  pub window : ℕ
  pub template : NotificationMessage

pub record ThrottlePolicy : Type 0 where
  pub max_count : ℕ
  pub time_window : ℕ

pub data ActionPolicy : Type 0 where
  aggregation : AggregationPolicy → ActionPolicy
  throttle : ThrottlePolicy → ActionPolicy

-- The part of `ActionConfig` that no sender reads.
pub record ActionConfig : Type 0 where
  pub id : Option ℕ
  pub name : String
  pub policy : Option ActionPolicy

pub record ThrottleState : Type 0 where
  pub count : ℕ
  pub window_start_time : ℕ

pub record AggregationState : Type 0 where
  pub matches : List MonitorMatch
  pub window_start_time : ℕ
