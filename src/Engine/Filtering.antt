-- ===== src/Engine/Filtering.antt =====
-- crates/argus-engine/src/filtering.rs: the evaluation of an item by the monitors in service.
pub mod Reference
pub mod Caches
pub mod Matching
pub mod Runs
pub mod LogPass
pub mod Exact
pub mod Declared
pub mod Stateless
pub mod Answers
pub mod Marks
pub mod Exclusive
pub mod Named
pub mod Service
mod Samples
use argus_rs.Base.{
  Bool, Exec, HashMap, List, Option, Result, String, [], contains, err, false, get, if◌then◌else◌,
  is_empty, nat_key, none, not, ok, pair_key, pure, some, string_key, ℕ, ◌>>=◌, ◌>>◌, ◌||◌, ◌∷◌,
}
use argus_rs.Core.Chain.{Log, CorrelatedBlockItem}
use argus_rs.Core.Matches.{MonitorMatch}
use argus_rs.Abi.Values.{DecodedLog, DecodedCall}
use argus_rs.Abi.Contracts.{Event}
use argus_rs.Scripts.Conversions.{Dynamic}
use argus_rs.Monitor.Assets.{ClassifiedMonitor, MonitorAssetState}
use argus_rs.Engine.Evaluation.{
  Env, EvaluationContext, RhaiError, create_log_matches, create_tx_matches, get_decoded_call,
  get_or_decode_log, get_tx_map, has_matched, new_context, runtime_error,
}

-- The filter by event names, without decoding.
abbrev pub named_in : List String → Option Event → Bool
named_in names none = false
named_in names (some event) = contains names event.name

unfoldable pub passes_names : Env → ClassifiedMonitor → Log → Bool
passes_names env cm raw_log =
    is_empty cm.analysis.accessed_log_event_names
    || named_in cm.analysis.accessed_log_event_names (env.decoder.peek_event_name raw_log)

-- `tx` and `decoded_call`, which are put into the scope before the first log that decodes.
abbrev pub ScopeBase : Type 0
ScopeBase = HashMap String Dynamic × Option DecodedCall

unfoldable pub init_scope :
    Env
    → CorrelatedBlockItem
    → ClassifiedMonitor
    → Option ScopeBase
    → EvaluationContext
    → ScopeBase × EvaluationContext
unfolding get_tx_map get_decoded_call
init_scope env item cm (some base) ctx = (base, ctx)
init_scope env item cm none ctx =
    let (tx, ctx1) = get_tx_map env item ctx in
    let (call, ctx2) = get_decoded_call env item cm ctx1 in ((tx, call), ctx2)

-- `eval_ast_bool_secure`
unfoldable pub eval_ast_bool_secure :
    Env → ClassifiedMonitor → ScopeBase → Option DecodedLog → Exec EvaluationContext RhaiError Bool
eval_ast_bool_secure env cm base log ctx =
    elim (env.eval cm.monitor.filter_script
      (record { tx = base.0; decoded_call = base.1; log = log })) [
        | none ↦ (err runtime_error, ctx)
        | some is_match ↦ (ok is_match, ctx)
      ]

-- A log that passed the filter and decoded.
unfoldable pub visit_decoded :
    Env
    → CorrelatedBlockItem
    → ClassifiedMonitor
    → Option ScopeBase
    → DecodedLog
    → Exec EvaluationContext RhaiError (Option ScopeBase)
unfolding init_scope eval_ast_bool_secure create_log_matches
visit_decoded env item cm scope d ctx =
    let (base, ctx1) = init_scope env item cm scope ctx in
    (eval_ast_bool_secure env cm base (some d) >>= λ is_match ctx2.
    (ok (some base), if is_match then create_log_matches env item cm.monitor d ctx2 else ctx2))
      ctx1

unfoldable pub visit_log :
    Env
    → CorrelatedBlockItem
    → ClassifiedMonitor
    → Option ScopeBase
    → Log
    → Exec EvaluationContext RhaiError (Option ScopeBase)
unfolding passes_names get_or_decode_log visit_decoded
visit_log env item cm scope raw_log ctx =
    if not (passes_names env cm raw_log)
    then (ok scope, ctx)
    else let (decoded, ctx1) = get_or_decode_log env raw_log ctx in
      elim decoded [ none ↦ (ok scope, ctx1) | some d ↦ visit_decoded env item cm scope d ctx1 ]

unfoldable pub visit_logs :
    Env
    → CorrelatedBlockItem
    → ClassifiedMonitor
    → List Log
    → Option ScopeBase
    → Exec EvaluationContext RhaiError (Unit {0})
unfolding visit_log
visit_logs env item cm [] scope = pure tt
visit_logs env item cm (raw_log ∷ logs) scope =
    visit_log env item cm scope raw_log >>= λ scope'. visit_logs env item cm logs scope'

unfoldable pub evaluate_log_aware_monitors :
    Env → CorrelatedBlockItem → List ClassifiedMonitor → Exec EvaluationContext RhaiError (Unit {0})
unfolding visit_logs
evaluate_log_aware_monitors env item [] = pure tt
evaluate_log_aware_monitors env item (cm ∷ cms) =
    visit_logs env item cm item.logs none >> evaluate_log_aware_monitors env item cms

unfoldable pub visit_tx_monitor :
    Env
    → CorrelatedBlockItem
    → HashMap String Dynamic
    → ClassifiedMonitor
    → Exec EvaluationContext RhaiError (Unit {0})
unfolding get_decoded_call eval_ast_bool_secure create_tx_matches
visit_tx_monitor env item tx cm ctx =
    if has_matched ctx cm.monitor.id
    then (ok tt, ctx)
    else let (call, ctx1) = get_decoded_call env item cm ctx in
      (eval_ast_bool_secure env cm (tx, call) none >>= λ is_match ctx2.
      (ok tt, if is_match then create_tx_matches env item cm.monitor ctx2 else ctx2))
        ctx1

unfoldable pub visit_tx_monitors :
    Env
    → CorrelatedBlockItem
    → HashMap String Dynamic
    → List ClassifiedMonitor
    → Exec EvaluationContext RhaiError (Unit {0})
unfolding visit_tx_monitor
visit_tx_monitors env item tx [] = pure tt
visit_tx_monitors env item tx (cm ∷ cms) =
    visit_tx_monitor env item tx cm >> visit_tx_monitors env item tx cms

unfoldable pub evaluate_tx_aware_monitors :
    Env → CorrelatedBlockItem → List ClassifiedMonitor → Exec EvaluationContext RhaiError (Unit {0})
unfolding get_tx_map visit_tx_monitors
evaluate_tx_aware_monitors env item [] ctx = (ok tt, ctx)
evaluate_tx_aware_monitors env item (cm ∷ cms) ctx =
    let (tx, ctx1) = get_tx_map env item ctx in visit_tx_monitors env item tx (cm ∷ cms) ctx1

-- `filter_map(|id| monitors_by_id.get(id))`
unfoldable pub in_service : MonitorAssetState → List ℕ → List ClassifiedMonitor
in_service assets [] = []
in_service assets (id ∷ ids) =
    let rest = in_service assets ids in
    elim (get assets.monitors_by_id id) [ none ↦ rest | some cm ↦ cm ∷ rest ]

unfoldable pub evaluate_item : Env → CorrelatedBlockItem → Result RhaiError (List MonitorMatch)
unfolding evaluate_log_aware_monitors evaluate_tx_aware_monitors in_service
evaluate_item env item =
    let log_aware_monitors = in_service env.assets env.assets.log_aware_monitors in
    let tx_aware_monitors = in_service env.assets env.assets.tx_aware_monitors in
    let evaluated =
      ((if is_empty item.logs
            then pure tt
            else evaluate_log_aware_monitors env item log_aware_monitors)
          >> evaluate_tx_aware_monitors env item tx_aware_monitors
          >> λ ctx. (ok ctx.matches, ctx))
        new_context in
    evaluated.0
