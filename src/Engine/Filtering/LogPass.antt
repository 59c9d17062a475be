-- ===== src/Engine/Filtering/LogPass.antt =====
-- The pass of the engine over the logs finds what the pass without caches finds.
use mathlib.Core.Path.{subst}
use argus_rs.Base.{
  [], err, ok, Result-cases, ◌∷◌, All, List, Bool-cases, continue, Exec, Bool, Option, Option-cases,
  Result, arith, err, false, if◌then◌else◌, inl, inr, nat_key, none, ok, pair_key, refl, some,
  string_key, true, ◌||◌, ◌≡◌,
}
use argus_rs.Core.Chain.{Log, CorrelatedBlockItem}
use argus_rs.Abi.Values.{DecodedLog}
use argus_rs.Monitor.Assets.{ClassifiedMonitor}
use argus_rs.Engine.Evaluation.{
  Env, EvaluationContext, LogCacheKey, RhaiError, get_tx_map, create_log_matches,
}
use argus_rs.Engine.Filtering.{
  evaluate_log_aware_monitors, passes_names, visit_logs, visit_log, ScopeBase, init_scope,
  eval_ast_bool_secure, visit_decoded,
}
use argus_rs.Engine.Filtering.Reference.{
  log_pass, seen, logs_pass, Outcome, the_map, call_of, answer, decoded_for, with_log_match,
  log_step,
}
use argus_rs.Engine.Filtering.Caches.{
  get_or_decode_log-Rep, Rep, same_flag, get_tx_map-Rep, get_decoded_call-Rep,
}
use argus_rs.Engine.Filtering.Matching.{create_log_matches-Rep}
use argus_rs.Engine.Filtering.Runs.{Sim, bind, Tells, go_on}

module _ (env : Env) (item : CorrelatedBlockItem) (source : LogCacheKey → Log) where
  -- The scope of a monitor, once it is there.
  abbrev IsScope : ClassifiedMonitor → Option ScopeBase → Outcome → Type 0
  IsScope cm none o = Unit
  IsScope cm (some base) o =
      (base ≡ (the_map env item, call_of env item cm))
      × (o.call_decoded ≡ (o.call_decoded || cm.caps.call))

  abbrev ScopeSim :
      ClassifiedMonitor
      → Result RhaiError (Option ScopeBase) × EvaluationContext
      → Result RhaiError Outcome
      → Type 0
  ScopeSim cm (ok scope, ctx) (ok o) = IsScope cm scope o × Rep env item source ctx o
  ScopeSim cm (ok scope, ctx) (err e) = ⊥
  ScopeSim cm (err e, ctx) (ok o) = ⊥
  ScopeSim cm (err e, ctx) (err e') = e ≡ e'

  init_scope-Rep :
      (cm : ClassifiedMonitor) (scope : Option ScopeBase) (ctx : EvaluationContext) (o : Outcome)
      → IsScope cm scope o
      → Rep env item source ctx o
      → ((init_scope env item cm scope ctx).0 ≡ (the_map env item, call_of env item cm))
        × Rep env item source (init_scope env item cm scope ctx).1 (decoded_for env item cm o)
  unfolding init_scope
  init_scope-Rep cm (some base) ctx o h r = (h.0, same_flag env item source h.1 r)
  init_scope-Rep cm none ctx o h r =
      let (m, r1) = get_tx_map-Rep env item source ctx o r in
      let (c, r2) = get_decoded_call-Rep env item source cm (get_tx_map env item ctx).1 o r1 in
      (cc, r2)

  after_answer :
      (cm : ClassifiedMonitor) (d : DecodedLog) (hit : Bool) (ctx : EvaluationContext) (o : Outcome)
      → o.call_decoded ≡ (o.call_decoded || cm.caps.call)
      → Rep env item source ctx o
      → ScopeSim cm
          (
            ok (some (the_map env item, call_of env item cm)),
            if hit then create_log_matches env item cm.monitor d ctx else ctx,
          )
          (ok (if hit then with_log_match env item cm d o else o))
  after_answer cm d true ctx o e r =
      ((refl, e), create_log_matches-Rep env item source cm d ctx o r)
  after_answer cm d false ctx o e r = ((refl, e), r)

  visit_decoded-Sim :
      (cm : ClassifiedMonitor) (scope : Option ScopeBase) (d : DecodedLog) (ctx : EvaluationContext)
      (o : Outcome)
      → IsScope cm scope o
      → Rep env item source ctx o
      → ScopeSim cm (visit_decoded env item cm scope d ctx) (log_step env item cm d o)
  unfolding visit_decoded log_step
  visit_decoded-Sim cm scope d ctx o h r =
      let (base, r1) = init_scope-Rep cm scope ctx o h r in
      rw (base, visit_decoded)
        (elim (Option-cases (answer env item cm (some d))) [
          | inl failed ↦ rw (failed, eval_ast_bool_secure, log_step) refl
          | inr (hit, answered) ↦
              rw (answered, eval_ast_bool_secure, log_step)
                (after_answer cm d hit _ _ (ground arith) r1)
        ])

  scope_bind :
      (cm : ClassifiedMonitor) (run : Result RhaiError (Option ScopeBase) × EvaluationContext)
      (found : Result RhaiError Outcome)
      (f : Option ScopeBase → Exec EvaluationContext RhaiError (Unit {0}))
      (g : Outcome → Result RhaiError Outcome)
      → ScopeSim cm run found
      → ((scope : Option ScopeBase) (ctx : EvaluationContext) (o : Outcome)
          → IsScope cm scope o
          → Rep env item source ctx o
          → Sim env item source (f scope ctx) (g o))
      → Sim env item source (continue run.0 f run.1) (go_on found g)
  scope_bind cm (ok scope, ctx) (ok o) f g h k = k scope ctx o h.0 h.1
  scope_bind cm (ok scope, ctx) (err e) f g h k = absurd h
  scope_bind cm (err e, ctx) (ok o) f g h k = absurd h
  scope_bind cm (err e, ctx) (err e') f g h k = h

  abbrev seen_step : ClassifiedMonitor → Outcome → Option DecodedLog → Result RhaiError Outcome
  seen_step cm o none = ok o
  seen_step cm o (some d) = log_step env item cm d o

  visit_log-Sim :
      (cm : ClassifiedMonitor) (scope : Option ScopeBase) (raw_log : Log) (ctx : EvaluationContext)
      (o : Outcome)
      → Tells env item source raw_log
      → IsScope cm scope o
      → Rep env item source ctx o
      → ScopeSim cm
          (visit_log env item cm scope raw_log ctx)
          (seen_step cm o (seen env item cm raw_log))
  unfolding visit_log
  visit_log-Sim cm scope raw_log ctx o tells h r = elim (Bool-cases (passes_names env cm raw_log)) [
    | inr dropped ↦ rw (dropped, visit_log) (h, r)
    | inl passed ↦
        let (decoded, r1) = get_or_decode_log-Rep env item source raw_log ctx o tells r in
        rw (passed, decoded, visit_log)
          (elim (Option-cases (env.decoder.decode_log raw_log)) [
            | inl failed ↦ rw failed (h, r1)
            | inr (d, good) ↦ rw good (visit_decoded-Sim cm scope d _ o h r1)
          ])
  ]

  visit_logs-Sim :
      (cm : ClassifiedMonitor) (logs : List Log) (scope : Option ScopeBase)
      (ctx : EvaluationContext) (o : Outcome)
      → All (Tells env item source) logs
      → IsScope cm scope o
      → Rep env item source ctx o
      → Sim env item source (visit_logs env item cm logs scope ctx) (logs_pass env item cm logs o)
  unfolding visit_logs logs_pass
  visit_logs-Sim cm [] scope ctx o tells h r = r
  visit_logs-Sim cm (raw_log ∷ logs) scope ctx o tells h r =
      subst (Sim env item source (visit_logs env item cm (raw_log ∷ logs) scope ctx))
        (joined (seen env item cm raw_log))
        (scope_bind cm _ _ (visit_logs env item cm logs) (logs_pass env item cm logs)
          (visit_log-Sim cm scope raw_log ctx o tells.0 h r)
          (λ scope' ctx' o' h' r'. visit_logs-Sim cm logs scope' ctx' o' tells.1 h' r'))
    where
      joined :
          (s : Option DecodedLog)
          → go_on (seen_step cm o s) (logs_pass env item cm logs) ≡ (elim s [
            | none ↦ logs_pass env item cm logs o
            | some d ↦ elim (log_step env item cm d o) [
              | err e ↦ err e
              | ok o' ↦ logs_pass env item cm logs o'
            ]
          ])
      joined none = refl
      joined (some d) = elim (Result-cases (log_step env item cm d o)) [
        | inl (o', good) ↦ rw good refl
        | inr (e, bad) ↦ rw bad refl
      ]

  pub evaluate_log_aware_monitors-Sim :
      (cms : List ClassifiedMonitor) (ctx : EvaluationContext) (o : Outcome)
      → All (Tells env item source) item.logs
      → Rep env item source ctx o
      → Sim env item source (evaluate_log_aware_monitors env item cms ctx) (log_pass env item cms o)
  unfolding evaluate_log_aware_monitors log_pass
  evaluate_log_aware_monitors-Sim [] ctx o tells r = r
  evaluate_log_aware_monitors-Sim (cm ∷ cms) ctx o tells r =
      subst (Sim env item source (evaluate_log_aware_monitors env item (cm ∷ cms) ctx))
        (joined (logs_pass env item cm item.logs o))
        (bind env item source _ _ (evaluate_log_aware_monitors env item cms) (log_pass env item cms)
          (visit_logs-Sim cm item.logs none ctx o tells tt r)
          (λ ctx' o' r'. evaluate_log_aware_monitors-Sim cms ctx' o' tells r'))
    where
      joined :
          (f : Result RhaiError Outcome)
          → go_on f (log_pass env item cms)
            ≡ (elim f [ err e ↦ err e | ok o' ↦ log_pass env item cms o' ])
      joined (ok o') = refl
      joined (err e) = refl
