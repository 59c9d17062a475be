-- ===== src/Engine/Filtering/Matching.antt =====
-- The matches that the engine creates from its caches.
use argus_rs.Monitor.Assets.{ClassifiedMonitor}
use argus_rs.Base.{map, ◌++◌, ◌||◌, ◌==◌, ap, contains, nat_key, pair_key, string_key}
use argus_rs.Core.Chain.{Log, CorrelatedBlockItem}
use argus_rs.Abi.Values.{DecodedLog}
use argus_rs.Engine.Evaluation.{
  tx_match_of, log_match_of, create_tx_matches, create_log_matches, Env, EvaluationContext,
  LogCacheKey, get_tx_details,
}
use argus_rs.Engine.Filtering.Reference.{
  with_log_match, with_tx_match, json_of, Outcome, the_details,
}
use argus_rs.Engine.Filtering.Caches.{Rep, get_tx_details-Rep, get_decoded_call_json-Rep}

module _ (env : Env) (item : CorrelatedBlockItem) (source : LogCacheKey → Log) where
  pub create_log_matches-Rep :
      (cm : ClassifiedMonitor) (d : DecodedLog) (ctx : EvaluationContext) (o : Outcome)
      → Rep env item source ctx o
      → Rep env item source
          (create_log_matches env item cm.monitor d ctx)
          (with_log_match env item cm d o)
  unfolding create_log_matches contains
  create_log_matches-Rep cm d ctx o r =
      let (d0, r1) = get_tx_details-Rep env item source ctx o r in
      let (c0, r2) =
        get_decoded_call_json-Rep env item source (get_tx_details env item ctx).1 o r1 in
      rw (d0, c0)
        (record {
          details = r2.details;
          tx_map = r2.tx_map;
          logs = r2.logs;
          call = r2.call;
          json = r2.json;
          matches =
              ap
                (λ ms.
                  ms
                  ++ map
                      (log_match_of env item cm.monitor d (the_details env item)
                        (json_of env item o.call_decoded))
                      cm.monitor.actions)
                r2.matches;
          matched = λ id. ap (λ b. cm.monitor.id == id || b) (r2.matched id);
        })

  pub create_tx_matches-Rep :
      (cm : ClassifiedMonitor) (ctx : EvaluationContext) (o : Outcome)
      → Rep env item source ctx o
      → Rep env item source
          (create_tx_matches env item cm.monitor ctx)
          (with_tx_match env item cm o)
  unfolding create_tx_matches
  create_tx_matches-Rep cm ctx o r =
      let (d0, r1) = get_tx_details-Rep env item source ctx o r in
      let (c0, r2) =
        get_decoded_call_json-Rep env item source (get_tx_details env item ctx).1 o r1 in
      rw (d0, c0)
        (record {
          details = r2.details;
          tx_map = r2.tx_map;
          logs = r2.logs;
          call = r2.call;
          json = r2.json;
          matches =
              ap
                (λ ms.
                  ms
                  ++ map
                      (tx_match_of env item cm.monitor (the_details env item)
                        (json_of env item o.call_decoded))
                      cm.monitor.actions)
                r2.matches;
          matched = r2.matched;
        })
