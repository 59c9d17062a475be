-- ===== src/Engine/Filtering/Caches.antt =====
-- The context of an evaluation stands for an outcome, and its caches hold what they cache.
use argus_rs.Monitor.Assets.{ClassifiedMonitor}
use mathlib.Core.Path.{subst}
use argus_rs.Base.{
  false, true, arith, ◌||◌, sym, insert-found, Bool, ap, ◌∙◌, HashMap, Option, String, contains,
  get, if◌then◌else◌, inl, inr, nat_key, none, pair_key, refl, some, string_key, true, ℕ, ◌≡◌,
}
use argus_rs.Core.Chain.{Log, CorrelatedBlockItem}
use argus_rs.Abi.Values.{DecodedCall, DecodedLog, Json}
use argus_rs.Scripts.Conversions.{Dynamic}
use argus_rs.Engine.Evaluation.{
  json_cached, get_decoded_call_json, call_cached, decode_keyed, decode_cached, cache_key,
  map_cached, get_or_decode_log, get_decoded_call, details_cached, Env, EvaluationContext,
  LogCacheKey, call_json, get_tx_map, get_tx_details, new_context,
}
use argus_rs.Engine.Filtering.Reference.{
  json_of, decoded_for, call_of, Outcome, nothing, the_map, the_details, the_call,
}

-- `source` tells the log of a key.
pub record Represents (env : Env) (item : CorrelatedBlockItem) (source : LogCacheKey → Log)
    (ctx : EvaluationContext) (o : Outcome) : Type 0 where
  pub details : (j : Json) → ctx.tx_details_cache ≡ some j → j ≡ the_details env item
  pub tx_map : (m : HashMap String Dynamic) → ctx.tx_map_cache ≡ some m → m ≡ the_map env item
  pub logs :
      (k : LogCacheKey) (d : Option DecodedLog)
      → get ctx.decoded_logs_cache k ≡ some d
      → d ≡ env.decoder.decode_log (source k)
  pub call : ctx.decoded_call_cache ≡ (if o.call_decoded then some (the_call env item) else none)
  pub json :
      (j : Option Json)
      → ctx.decoded_call_json_cache ≡ some j
      → (o.call_decoded ≡ true) × (j ≡ call_json env (the_call env item))
  pub matches : ctx.matches ≡ o.matches
  pub matched : (id : ℕ) → contains ctx.matched_monitor_ids id ≡ contains o.matched id

module _ (env : Env) (item : CorrelatedBlockItem) (source : LogCacheKey → Log) where
  abbrev pub Rep : EvaluationContext → Outcome → Type 0
  Rep = Represents env item source

  pub new_context-Rep : Rep new_context nothing
  unfolding get
  new_context-Rep = record {
    details = λ j h. absurd (cc);
    tx_map = λ m h. absurd (cc);
    logs = λ k d h. absurd (cc);
    call = refl;
    json = λ j h. absurd (cc);
    matches = refl;
    matched = λ id. refl;
  }

  pub get_tx_map-Rep :
      (ctx : EvaluationContext) (o : Outcome)
      → Rep ctx o
      → ((get_tx_map env item ctx).0 ≡ the_map env item) × Rep (get_tx_map env item ctx).1 o
  unfolding get_tx_map
  get_tx_map-Rep ctx o r = by_cache ctx.tx_map_cache refl
    where
      by_cache :
          (c : Option (HashMap String Dynamic))
          → ctx.tx_map_cache ≡ c
          → ((map_cached env item ctx c).0 ≡ the_map env item) × Rep (map_cached env item ctx c).1 o
      by_cache (some m) e = (r.tx_map m e, r)
      by_cache none e = (
        refl,
        record {
          details = r.details;
          tx_map = λ m h. cc;
          logs = r.logs;
          call = r.call;
          json = r.json;
          matches = r.matches;
          matched = r.matched;
        },
      )

  pub get_tx_details-Rep :
      (ctx : EvaluationContext) (o : Outcome)
      → Rep ctx o
      → ((get_tx_details env item ctx).0 ≡ the_details env item)
        × Rep (get_tx_details env item ctx).1 o
  unfolding get_tx_details
  get_tx_details-Rep ctx o r = by_cache ctx.tx_details_cache refl
    where
      by_cache :
          (c : Option Json)
          → ctx.tx_details_cache ≡ c
          → ((details_cached env item ctx c).0 ≡ the_details env item)
            × Rep (details_cached env item ctx c).1 o
      by_cache (some j) e = (r.details j e, r)
      by_cache none e = (
        refl,
        record {
          details = λ j h. cc;
          tx_map = r.tx_map;
          logs = r.logs;
          call = r.call;
          json = r.json;
          matches = r.matches;
          matched = r.matched;
        },
      )

  pub get_or_decode_log-Rep :
      (raw_log : Log) (ctx : EvaluationContext) (o : Outcome)
      → ((k : LogCacheKey) → cache_key raw_log ≡ some k → source k ≡ raw_log)
      → Rep ctx o
      → ((get_or_decode_log env raw_log ctx).0 ≡ env.decoder.decode_log raw_log)
        × Rep (get_or_decode_log env raw_log ctx).1 o
  unfolding get_or_decode_log
  get_or_decode_log-Rep raw_log ctx o named r = by_key (cache_key raw_log) refl
    where
      by_cache :
          (k : LogCacheKey)
          → cache_key raw_log ≡ some k
          → (c : Option (Option DecodedLog)) → get ctx.decoded_logs_cache k ≡ c
          → ((decode_cached env raw_log ctx k c).0 ≡ env.decoder.decode_log raw_log)
            × Rep (decode_cached env raw_log ctx k c).1 o
      by_cache k key (some d) e = (r.logs k d e ∙ ap env.decoder.decode_log (named k key), r)
      by_cache k key none e = (
        refl,
        record {
          details = r.details;
          tx_map = r.tx_map;
          logs = λ j d h.
              elim (insert-found ctx.decoded_logs_cache k (env.decoder.decode_log raw_log) j h) [
                | inl (here, same) ↦
                    sym same ∙ ap env.decoder.decode_log (sym (named j (key ∙ ap some here)))
                | inr before ↦ r.logs j d before
              ];
          call = r.call;
          json = r.json;
          matches = r.matches;
          matched = r.matched;
        },
      )

      by_key :
          (k : Option LogCacheKey)
          → cache_key raw_log ≡ k
          → ((decode_keyed env raw_log ctx k).0 ≡ env.decoder.decode_log raw_log)
            × Rep (decode_keyed env raw_log ctx k).1 o
      by_key none e = (refl, r)
      by_key (some k) e = by_cache k e (get ctx.decoded_logs_cache k) refl

  -- The outcome with the flag that it has.
  pub same_flag :
      {ctx : EvaluationContext} {o : Outcome} {b : Bool}
      → o.call_decoded ≡ b
      → Rep ctx o
      → Rep ctx (record o { call_decoded = b })
  same_flag {ctx} {o} e r = subst (λ b. Rep ctx (record o { call_decoded = b })) e r

  pub get_decoded_call-Rep :
      (cm : ClassifiedMonitor) (ctx : EvaluationContext) (o : Outcome)
      → Rep ctx o
      → ((get_decoded_call env item cm ctx).0 ≡ call_of env item cm)
        × Rep (get_decoded_call env item cm ctx).1 (decoded_for env item cm o)
  unfolding get_decoded_call
  get_decoded_call-Rep cm ctx o r =
      by_call cm.caps.call o.call_decoded refl ctx.decoded_call_cache refl
    where
      by_call :
          (b d : Bool)
          → o.call_decoded ≡ d
          → (c : Option (Option DecodedCall)) → ctx.decoded_call_cache ≡ c
          → ((if b then call_cached env item ctx c else (none, ctx)).0
              ≡ (if b then the_call env item else none))
            × Rep
                (if b then call_cached env item ctx c else (none, ctx)).1
                (record o { call_decoded = o.call_decoded || b })
      by_call false d e c h = (refl, same_flag (ground arith) r)
      by_call true true e (some call) h = (ground (arith, r.call), same_flag (ground (arith, e)) r)
      by_call true true e none h = absurd (ground (arith, r.call))
      by_call true false e (some call) h = absurd (ground (arith, r.call))
      by_call true false e none h = (
        refl,
        record {
          details = r.details;
          tx_map = r.tx_map;
          logs = r.logs;
          call = ground arith;
          json = λ j k. absurd (cc (r.json j k).0);
          matches = r.matches;
          matched = r.matched;
        },
      )

  pub get_decoded_call_json-Rep :
      (ctx : EvaluationContext) (o : Outcome)
      → Rep ctx o
      → ((get_decoded_call_json env ctx).0 ≡ json_of env item o.call_decoded)
        × Rep (get_decoded_call_json env ctx).1 o
  unfolding get_decoded_call_json
  get_decoded_call_json-Rep ctx o r =
      by_caches ctx.decoded_call_json_cache refl ctx.decoded_call_cache refl
    where
      by_caches :
          (j : Option (Option Json))
          → ctx.decoded_call_json_cache ≡ j
          → (c : Option (Option DecodedCall)) → ctx.decoded_call_cache ≡ c
          → ((json_cached env ctx j c).0 ≡ json_of env item o.call_decoded)
            × Rep (json_cached env ctx j c).1 o
      by_caches (some j) h c k = (ground (arith, r.json j h), r)
      by_caches none h none k = (ground (arith, r.call), r)
      by_caches none h (some call) k =
          let shown : o.call_decoded ≡ true = ground (arith, r.call) in
          let decoded : call ≡ the_call env item = ground (arith, r.call) in
          (
            ground arith,
            record {
              details = r.details;
              tx_map = r.tx_map;
              logs = r.logs;
              call = r.call;
              json = λ j e. (shown, ground arith);
              matches = r.matches;
              matched = r.matched;
            },
          )
