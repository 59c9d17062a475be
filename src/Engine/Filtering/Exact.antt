-- ===== src/Engine/Filtering/Exact.antt =====
-- The engine finds what the evaluation without caches finds.
use mathlib.Core.Path.{subst}
use argus_rs.Base.{
  [], is_empty, pure, sym, err, ok, contains, ◌∷◌, All, List, Bool-cases, Bool, Option-cases,
  Result, err, false, if◌then◌else◌, inl, inr, nat_key, none, ok, pair_key, refl, string_key, true,
  ◌≡◌,
}
use argus_rs.Core.Chain.{Log, CorrelatedBlockItem}
use argus_rs.Monitor.Assets.{ClassifiedMonitor}
use argus_rs.Engine.Evaluation.{
  new_context, create_tx_matches, Env, EvaluationContext, LogCacheKey, RhaiError, get_tx_map,
}
use argus_rs.Engine.Filtering.{
  in_service, visit_tx_monitors, visit_tx_monitor, evaluate_tx_aware_monitors,
  evaluate_log_aware_monitors, evaluate_item, eval_ast_bool_secure,
}
use argus_rs.Engine.Filtering.Reference.{
  nothing, with_tx_match, tx_step, tx_pass, reference, log_pass, logs_pass, Outcome, the_map,
  answer,
}
use argus_rs.Engine.Filtering.Caches.{new_context-Rep, Rep, get_tx_map-Rep, get_decoded_call-Rep}
use argus_rs.Engine.Filtering.Matching.{create_tx_matches-Rep}
use argus_rs.Engine.Filtering.Runs.{Sim, bind, Tells, conclude, go_on, found_matches}
use argus_rs.Engine.Filtering.LogPass.{evaluate_log_aware_monitors-Sim}

module _ (env : Env) (item : CorrelatedBlockItem) (source : LogCacheKey → Log) where
  after_tx_answer :
      (cm : ClassifiedMonitor) (hit : Bool) (ctx : EvaluationContext) (o : Outcome)
      → Rep env item source ctx o
      → Rep env item source
          (if hit then create_tx_matches env item cm.monitor ctx else ctx)
          (if hit then with_tx_match env item cm o else o)
  after_tx_answer cm true ctx o r = create_tx_matches-Rep env item source cm ctx o r
  after_tx_answer cm false ctx o r = r

  visit_tx_monitor-Sim :
      (cm : ClassifiedMonitor) (ctx : EvaluationContext) (o : Outcome)
      → Rep env item source ctx o
      → Sim env item source
          (visit_tx_monitor env item (the_map env item) cm ctx)
          (tx_step env item cm o)
  unfolding visit_tx_monitor tx_step
  visit_tx_monitor-Sim cm ctx o r = elim (Bool-cases (contains o.matched cm.monitor.id)) [
    | inl found ↦ rw (r.matched cm.monitor.id, found, visit_tx_monitor, tx_step) r
    | inr fresh ↦
        let (call, r1) = get_decoded_call-Rep env item source cm ctx o r in
        rw (r.matched cm.monitor.id, fresh, call, visit_tx_monitor, tx_step)
          (elim (Option-cases (answer env item cm none)) [
            | inl failed ↦ rw (failed, eval_ast_bool_secure, tx_step) refl
            | inr (hit, answered) ↦
                rw (answered, eval_ast_bool_secure, tx_step) (after_tx_answer cm hit _ _ r1)
          ])
  ]

  visit_tx_monitors-Sim :
      (cms : List ClassifiedMonitor) (ctx : EvaluationContext) (o : Outcome)
      → Rep env item source ctx o
      → Sim env item source
          (visit_tx_monitors env item (the_map env item) cms ctx)
          (tx_pass env item cms o)
  unfolding visit_tx_monitors tx_pass
  visit_tx_monitors-Sim [] ctx o r = r
  visit_tx_monitors-Sim (cm ∷ cms) ctx o r =
      subst (Sim env item source (visit_tx_monitors env item (the_map env item) (cm ∷ cms) ctx))
        (joined (tx_step env item cm o))
        (bind env item source _ _ (visit_tx_monitors env item (the_map env item) cms)
          (tx_pass env item cms) (visit_tx_monitor-Sim cm ctx o r)
          (λ ctx' o' r'. visit_tx_monitors-Sim cms ctx' o' r'))
    where
      joined :
          (f : Result RhaiError Outcome)
          → go_on f (tx_pass env item cms)
            ≡ (elim f [ err e ↦ err e | ok o' ↦ tx_pass env item cms o' ])
      joined (ok o') = refl
      joined (err e) = refl

  evaluate_tx_aware_monitors-Sim :
      (cms : List ClassifiedMonitor) (ctx : EvaluationContext) (o : Outcome)
      → Rep env item source ctx o
      → Sim env item source (evaluate_tx_aware_monitors env item cms ctx) (tx_pass env item cms o)
  unfolding evaluate_tx_aware_monitors tx_pass
  evaluate_tx_aware_monitors-Sim [] ctx o r = r
  evaluate_tx_aware_monitors-Sim (cm ∷ cms) ctx o r =
      let (m, r1) = get_tx_map-Rep env item source ctx o r in
      subst
        (λ tx.
          Sim env item source (visit_tx_monitors env item tx (cm ∷ cms) (get_tx_map env item ctx).1)
            (tx_pass env item (cm ∷ cms) o))
        (sym m) (visit_tx_monitors-Sim (cm ∷ cms) (get_tx_map env item ctx).1 o r1)

  log_pass-empty :
      (cms : List ClassifiedMonitor) (o : Outcome)
      → is_empty item.logs ≡ true
      → log_pass env item cms o ≡ ok o
  unfolding log_pass logs_pass
  log_pass-empty [] o h = refl
  log_pass-empty (cm ∷ cms) o h = rw (no_logs item.logs h, log_pass) (log_pass-empty cms o h)
    where
      no_logs : (logs : List Log) → is_empty logs ≡ true → logs_pass env item cm logs o ≡ ok o
      no_logs [] e = refl
      no_logs (l ∷ ls) e = absurd (cc)

  first_pass-Sim :
      (cms : List ClassifiedMonitor)
      → All (Tells env item source) item.logs
      → Sim env item source
          ((if is_empty item.logs then pure tt else evaluate_log_aware_monitors env item cms)
            new_context)
          (log_pass env item cms nothing)
  first_pass-Sim cms tells = elim (Bool-cases (is_empty item.logs)) [
    | inl empty ↦ rw (log_pass-empty cms nothing empty, empty) (new_context-Rep env item source)
    | inr more ↦ rw more (
        evaluate_log_aware_monitors-Sim env item source cms new_context nothing tells
          (new_context-Rep env item source))
  ]

  -- The engine finds what the evaluation step by step finds, which keeps no more than whether the call
  -- was read.
  pub evaluate_item-reference :
      All (Tells env item source) item.logs
      → evaluate_item env item ≡ found_matches (reference env item)
  unfolding evaluate_item reference
  evaluate_item-reference tells = conclude env item source _ _ (
      subst (Sim env item source _)
        (joined (log_pass env item (in_service env.assets env.assets.log_aware_monitors) nothing))
        (bind env item source _ _
          (evaluate_tx_aware_monitors env item (in_service env.assets env.assets.tx_aware_monitors))
          (tx_pass env item (in_service env.assets env.assets.tx_aware_monitors))
          (first_pass-Sim (in_service env.assets env.assets.log_aware_monitors) tells)
          (λ ctx o r.
            evaluate_tx_aware_monitors-Sim (in_service env.assets env.assets.tx_aware_monitors) ctx
              o r)))
    where
      joined :
          (f : Result RhaiError Outcome)
          → go_on f (tx_pass env item (in_service env.assets env.assets.tx_aware_monitors))
            ≡ (elim f [
              | err e ↦ err e
              | ok o' ↦ tx_pass env item (in_service env.assets env.assets.tx_aware_monitors) o'
            ])
      joined (ok o') = refl
      joined (err e) = refl
