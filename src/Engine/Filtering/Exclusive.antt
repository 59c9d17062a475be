-- ===== src/Engine/Filtering/Exclusive.antt =====
-- No monitor matches both a log and the transaction of one item.
use argus_rs.Base.{
  ok_inj, Result, ok, err, Option-cases, Bool-cases, inl, inr, false, true, [], none, some, ◌∙◌,
  sym, ==_refl, All, Bool, Bool-cases, List, Option, Option-cases, Result, String, [], arith,
  contains, err, false, if◌then◌else◌, inl, inr, map, nat_key, none, ok, pair_key, refl, some,
  string_key, sym, true, ℕ, ◌∙◌, ◌∷◌, ◌≡◌,
}
use mathlib.Core.Path.{subst}
use argus_rs.Core.Chain.{Log, CorrelatedBlockItem}
use argus_rs.Core.Matches.{
  MonitorMatch, build, builder, log_match, transaction_match, set_decoded_call,
}
use argus_rs.Abi.Values.{DecodedLog, Json}
use argus_rs.Monitor.Assets.{ClassifiedMonitor, Monitor}
use argus_rs.Engine.Evaluation.{Env, LogCacheKey, RhaiError, log_match_of, tx_match_of}
use argus_rs.Engine.Filtering.{evaluate_item, in_service}
use argus_rs.Engine.Filtering.Reference.{
  Outcome, nothing, answer, seen, decoded_for, with_log_match, with_tx_match, log_step, logs_pass,
  log_pass, tx_step, tx_pass, reference,
}
use argus_rs.Engine.Filtering.Exact.{evaluate_item-reference}
use argus_rs.Engine.Filtering.Runs.{Tells, found_matches}
use argus_rs.Engine.Filtering.Marks.{
  is_log_match, IsExclusive, IsMarked, IsSorted, All_map_all, All-append, IsSorted-IsExclusive,
  Marked, Sorted, OkHas, OkHas-bind,
}

module _ (env : Env) (item : CorrelatedBlockItem) where
  log_match_of-IsMarked :
      (monitor : Monitor) (d : DecodedLog) (details : Json) (call : Option Json) (ids : List ℕ)
      (actions : List String)
      → contains ids monitor.id ≡ true
      → IsMarked ids (map (log_match_of env item monitor d details call) actions)
  unfolding log_match_of builder log_match set_decoded_call build
  log_match_of-IsMarked monitor d details call ids [] h = tt
  log_match_of-IsMarked monitor d details call ids (a ∷ actions) h =
      ((refl, h), log_match_of-IsMarked monitor d details call ids actions h)

  tx_match_of-IsSorted :
      (monitor : Monitor) (details : Json) (call : Option Json) (ids : List ℕ)
      (actions : List String)
      → contains ids monitor.id ≡ false
      → IsSorted ids (map (tx_match_of env item monitor details call) actions)
  unfolding tx_match_of builder transaction_match set_decoded_call build
  tx_match_of-IsSorted monitor details call ids [] h = tt
  tx_match_of-IsSorted monitor details call ids (a ∷ actions) h =
      (sym h, tx_match_of-IsSorted monitor details call ids actions h)

  mark_more :
      (id : ℕ) (ids : List ℕ) (ms : List MonitorMatch) → IsMarked ids ms → IsMarked (id ∷ ids) ms
  unfolding contains
  mark_more id ids ms h = All_map_all (λ m p. (p.0, ground (arith, p.1))) ms h

  with_log_match-Marked :
      (cm : ClassifiedMonitor) (d : DecodedLog) (hit : Bool) (o : Outcome)
      → Marked o
      → Marked (if hit then with_log_match env item cm d o else o)
  unfolding contains
  with_log_match-Marked cm d false o h = h
  with_log_match-Marked cm d true o h =
      All-append
        (λ (m : MonitorMatch).
          (is_log_match m ≡ true) × (contains (cm.monitor.id ∷ o.matched) m.monitor_id ≡ true))
        o.matches _ (mark_more cm.monitor.id o.matched o.matches h)
        (log_match_of-IsMarked cm.monitor d _ _ (cm.monitor.id ∷ o.matched) cm.monitor.actions
          (ground (arith, ==_refl cm.monitor.id)))

  log_step-Marked :
      (cm : ClassifiedMonitor) (d : DecodedLog) (o : Outcome)
      → Marked o
      → OkHas Marked (log_step env item cm d o)
  unfolding log_step
  log_step-Marked cm d o h = elim (Option-cases (answer env item cm (some d))) [
    | inl failed ↦ rw (failed, log_step) tt
    | inr (hit, answered) ↦
        rw (answered, log_step) (with_log_match-Marked cm d hit (decoded_for env item cm o) h)
  ]

  logs_pass-Marked :
      (cm : ClassifiedMonitor) (logs : List Log) (o : Outcome)
      → Marked o
      → OkHas Marked (logs_pass env item cm logs o)
  unfolding logs_pass
  logs_pass-Marked cm [] o h = h
  logs_pass-Marked cm (raw_log ∷ logs) o h = elim (Option-cases (seen env item cm raw_log)) [
    | inl unseen ↦ rw (unseen, logs_pass) (logs_pass-Marked cm logs o h)
    | inr (d, decoded) ↦
        rw (decoded, logs_pass)
          (OkHas-bind Marked Marked (log_step env item cm d o) (logs_pass env item cm logs)
            (log_step-Marked cm d o h) (logs_pass-Marked cm logs))
  ]

  log_pass-Marked :
      (cms : List ClassifiedMonitor) (o : Outcome)
      → Marked o
      → OkHas Marked (log_pass env item cms o)
  unfolding log_pass
  log_pass-Marked [] o h = h
  log_pass-Marked (cm ∷ cms) o h =
      OkHas-bind Marked Marked (logs_pass env item cm item.logs o) (log_pass env item cms)
        (logs_pass-Marked cm item.logs o h) (log_pass-Marked cms)

  with_tx_match-Sorted :
      (cm : ClassifiedMonitor) (hit : Bool) (o : Outcome)
      → contains o.matched cm.monitor.id ≡ false
      → Sorted o
      → Sorted (if hit then with_tx_match env item cm o else o)
  with_tx_match-Sorted cm false o fresh h = h
  with_tx_match-Sorted cm true o fresh h =
      All-append (λ (m : MonitorMatch). is_log_match m ≡ contains o.matched m.monitor_id) o.matches
        _ h (tx_match_of-IsSorted cm.monitor _ _ o.matched cm.monitor.actions fresh)

  tx_step-Sorted :
      (cm : ClassifiedMonitor) (o : Outcome) → Sorted o → OkHas Sorted (tx_step env item cm o)
  unfolding tx_step
  tx_step-Sorted cm o h = elim (Bool-cases (contains o.matched cm.monitor.id)) [
    | inl found ↦ rw (found, tx_step) h
    | inr fresh ↦
        rw (fresh, tx_step)
          (elim (Option-cases (answer env item cm none)) [
            | inl failed ↦ rw failed tt
            | inr (hit, answered) ↦
                rw answered (with_tx_match-Sorted cm hit (decoded_for env item cm o) fresh h)
          ])
  ]

  tx_pass-Sorted :
      (cms : List ClassifiedMonitor) (o : Outcome)
      → Sorted o
      → OkHas Sorted (tx_pass env item cms o)
  unfolding tx_pass
  tx_pass-Sorted [] o h = h
  tx_pass-Sorted (cm ∷ cms) o h =
      OkHas-bind Sorted Sorted (tx_step env item cm o) (tx_pass env item cms)
        (tx_step-Sorted cm o h) (tx_pass-Sorted cms)

  reference-Sorted : OkHas Sorted (reference env item)
  unfolding reference
  reference-Sorted =
      OkHas-bind Marked Sorted
        (log_pass env item (in_service env.assets env.assets.log_aware_monitors) nothing)
        (tx_pass env item (in_service env.assets env.assets.tx_aware_monitors))
        (log_pass-Marked (in_service env.assets env.assets.log_aware_monitors) nothing tt)
        (λ o h.
          tx_pass-Sorted (in_service env.assets env.assets.tx_aware_monitors) o
            (All_map_all (λ m p. p.0 ∙ sym p.1) o.matches h))

-- Where no two logs of the item have one transaction hash and log index, the matches of one monitor
-- are all of logs or all of the transaction: a monitor that matched a log does not match the
-- transaction too.
pub evaluate_item-IsExclusive :
    (env : Env) (item : CorrelatedBlockItem) (source : LogCacheKey → Log) (ms : List MonitorMatch)
    → All (Tells env item source) item.logs
    → evaluate_item env item ≡ ok ms
    → IsExclusive ms
evaluate_item-IsExclusive env item source ms tells found =
    by_outcome (reference env item) (reference-Sorted env item)
      (sym (evaluate_item-reference env item source tells) ∙ found)
  where
    by_outcome :
        (r : Result RhaiError Outcome) → OkHas Sorted r → found_matches r ≡ ok ms → IsExclusive ms
    by_outcome (ok o) h e =
        subst IsExclusive (ok_inj e) (IsSorted-IsExclusive o.matched o.matches h)
    by_outcome (err x) h e = absurd (cc)
