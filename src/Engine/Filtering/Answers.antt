-- ===== src/Engine/Filtering/Answers.antt =====
-- The engine finds what is declared of each monitor and each log by itself.
use argus_rs.Base.{Bool, List, [], contains, nat_key, not, pair_key, string_key, ◌∷◌}
use argus_rs.Core.Chain.{CorrelatedBlockItem}
use argus_rs.Monitor.Assets.{ClassifiedMonitor}
use argus_rs.Engine.Evaluation.{Env}
use argus_rs.Engine.Filtering.Reference.{Outcome}
use argus_rs.Engine.Filtering.Stateless.{after_logs}

module _ (env : Env) (item : CorrelatedBlockItem) where
  unfoldable after_monitors : List ClassifiedMonitor → Outcome → Outcome
  after_monitors [] o = o
  after_monitors (cm ∷ cms) o = after_monitors cms (after_logs env item cm item.logs o)

  abbrev is_fresh : Outcome → ClassifiedMonitor → Bool
  is_fresh o cm = not (contains o.matched cm.monitor.id)
