-- ===== src/Engine/Filtering/Runs.antt =====
-- Runs of the engine beside runs of the evaluation without caches.
use argus_rs.Base.{
  ap, err, ok, List, continue, Exec, Result, err, nat_key, ok, pair_key, some, string_key, ◌≡◌,
}
use argus_rs.Core.Chain.{Log, CorrelatedBlockItem}
use argus_rs.Engine.Evaluation.{cache_key, Env, EvaluationContext, LogCacheKey, RhaiError}
use argus_rs.Engine.Filtering.{MonitorMatch}
use argus_rs.Engine.Filtering.Reference.{Outcome}
use argus_rs.Engine.Filtering.Caches.{Rep}

-- What goes on with the outcome of a step.
abbrev pub go_on :
    Result RhaiError Outcome → (Outcome → Result RhaiError Outcome) → Result RhaiError Outcome
go_on (err e) g = err e
go_on (ok o) g = g o

-- What a reference run yields to its caller.
abbrev pub found_matches : Result RhaiError Outcome → Result RhaiError (List MonitorMatch)
found_matches (ok o) = ok o.matches
found_matches (err e) = err e

module _ (env : Env) (item : CorrelatedBlockItem) (source : LogCacheKey → Log) where
  -- A run of the engine, and of the reference.
  abbrev pub Sim :
      Result RhaiError (Unit {0}) × EvaluationContext → Result RhaiError Outcome → Type 0
  Sim (ok u, ctx) (ok o) = Rep env item source ctx o
  Sim (ok u, ctx) (err e) = ⊥
  Sim (err e, ctx) (ok o) = ⊥
  Sim (err e, ctx) (err e') = e ≡ e'

  pub bind :
      (run : Result RhaiError (Unit {0}) × EvaluationContext) (found : Result RhaiError Outcome)
      (f : Exec EvaluationContext RhaiError (Unit {0})) (g : Outcome → Result RhaiError Outcome)
      → Sim run found
      → ((ctx : EvaluationContext) (o : Outcome) → Rep env item source ctx o → Sim (f ctx) (g o))
      → Sim (continue run.0 (λ u. f) run.1) (go_on found g)
  bind (ok u, ctx) (ok o) f g h k = k ctx o h
  bind (ok u, ctx) (err e) f g h k = absurd h
  bind (err e, ctx) (ok o) f g h k = absurd h
  bind (err e, ctx) (err e') f g h k = h

  -- The source of keys tells the log of its key.
  abbrev pub Tells : Log → Type 0
  Tells raw_log = (k : LogCacheKey) → cache_key raw_log ≡ some k → source k ≡ raw_log

  pub conclude :
      (run : Result RhaiError (Unit {0}) × EvaluationContext) (found : Result RhaiError Outcome)
      → Sim run found
      → (continue run.0 (λ u ctx. (ok ctx.matches, ctx)) run.1).0 ≡ found_matches found
  conclude (ok u, ctx) (ok o) r = ap ok r.matches
  conclude (ok u, ctx) (err e) h = absurd h
  conclude (err e, ctx) (ok o) h = absurd h
  conclude (err e, ctx) (err e') h = ap err h
