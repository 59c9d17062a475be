-- ===== src/Engine/Filtering/Stateless.antt =====
-- What the pass of one monitor over the logs leaves.
use argus_rs.Base.{
  Bool, List, Option, Result, [], any, ap, append-nil, append_assoc, contains, err, false,
  if◌then◌else◌, map, nat_key, none, ok, pair_key, refl, some, string_key, sym, true, ℕ, ◌&&◌, ◌++◌,
  ◌==◌, ◌||◌, ◌∙◌, ◌∷◌, ◌≡◌,
}
use mathlib.Core.Path.{ap₂}
use mathlib.Core.List.{flat_map}
use argus_rs.Core.Chain.{Log, CorrelatedBlockItem}
use argus_rs.Core.Matches.{MonitorMatch}
use argus_rs.Abi.Values.{DecodedLog}
use argus_rs.Monitor.Assets.{ClassifiedMonitor}
use argus_rs.Engine.Evaluation.{Env, RhaiError, runtime_error, log_match_of}
use argus_rs.Engine.Filtering.Reference.{
  Outcome, the_details, json_of, answer, seen, decoded_for, with_log_match, log_step, logs_pass,
}
use argus_rs.Engine.Filtering.Declared.{
  refused, answered, sees_of, fails_of, hits_of, matches_of, fails_at, hits_at, sees, matches_at,
}

abbrev pub verdict : Bool → Outcome → Result RhaiError Outcome
verdict true o = err runtime_error
verdict false o = ok o

or_absorbs : (b k : Bool) → ((b || k) || k) ≡ (b || k)
or_absorbs true k = refl
or_absorbs false true = refl
or_absorbs false false = refl

read_once : (b k x : Bool) → ((b || k) || (k && x)) ≡ (b || (k && true))
read_once true k x = refl
read_once false true x = refl
read_once false false x = refl

pub or_assoc : (a b c : Bool) → ((a || b) || c) ≡ (a || (b || c))
or_assoc true b c = refl
or_assoc false b c = refl

marked_first : (e c a : Bool) → ((e || c) || (e && a)) ≡ (c || (e && true))
marked_first true true a = refl
marked_first true false a = refl
marked_first false c a = refl

not_marked : (e c : Bool) → (c || (e && false)) ≡ c
not_marked e true = refl
not_marked true false = refl
not_marked false false = refl

module _ (env : Env) (item : CorrelatedBlockItem) where
  unfoldable pub marked : ClassifiedMonitor → List Log → List ℕ → List ℕ
  marked cm [] ids = ids
  marked cm (l ∷ logs) ids =
      marked cm logs (if hits_at env item cm l then cm.monitor.id ∷ ids else ids)

  pub contains-marked :
      (cm : ClassifiedMonitor) (logs : List Log) (ids : List ℕ) (id : ℕ)
      → contains (marked cm logs ids) id
        ≡ (contains ids id || (cm.monitor.id == id && any (hits_at env item cm) logs))
  unfolding marked contains any
  contains-marked cm [] ids id = sym (not_marked (cm.monitor.id == id) (contains ids id))
  contains-marked cm (l ∷ logs) ids id =
      by_hit (hits_at env item cm l) (λ is. contains-marked cm logs is id)
    where
      by_hit :
          (b : Bool)
          → ((is : List ℕ)
              → contains (marked cm logs is) id
                ≡ (contains is id || (cm.monitor.id == id && any (hits_at env item cm) logs)))
          → contains (marked cm logs (if b then cm.monitor.id ∷ ids else ids)) id
            ≡ (contains ids id || (cm.monitor.id == id && (b || any (hits_at env item cm) logs)))
      by_hit false rest = rest ids
      by_hit true rest =
          rest (cm.monitor.id ∷ ids)
          ∙ marked_first (cm.monitor.id == id) (contains ids id) (any (hits_at env item cm) logs)

  -- What a monitor leaves behind the logs.
  abbrev pub after_logs : ClassifiedMonitor → List Log → Outcome → Outcome
  after_logs cm logs o = record {
    matches = o.matches ++ flat_map (matches_at env item (o.call_decoded || cm.caps.call) cm) logs;
    matched = marked cm logs o.matched;
    call_decoded = o.call_decoded || (cm.caps.call && any (sees env item cm) logs);
  }

  -- The same, where the first log was seen.
  after_seen :
      (cm : ClassifiedMonitor) (logs : List Log) (ms new : List MonitorMatch) (ids : List ℕ)
      (b : Bool)
      → after_logs cm logs
          (record { matches = ms ++ new; matched = ids; call_decoded = b || cm.caps.call })
        ≡ record {
          matches = ms ++ (new ++ flat_map (matches_at env item (b || cm.caps.call) cm) logs);
          matched = marked cm logs ids;
          call_decoded = b || (cm.caps.call && true);
        }
  after_seen cm logs ms new ids b =
      ap₂ (λ found c. record { matches = found; matched = marked cm logs ids; call_decoded = c })
        (ap (λ k. (ms ++ new) ++ flat_map (matches_at env item k cm) logs)
            (or_absorbs b cm.caps.call)
          ∙ append_assoc ms new (flat_map (matches_at env item (b || cm.caps.call) cm) logs))
        (read_once b cm.caps.call (any (sees env item cm) logs))

  -- The pass of one monitor over the logs.
  pub logs_pass_lem :
      (cm : ClassifiedMonitor) (logs : List Log) (o : Outcome)
      → logs_pass env item cm logs o
        ≡ verdict (any (fails_at env item cm) logs) (after_logs cm logs o)
  unfolding logs_pass log_step any marked flat_map
  logs_pass_lem cm [] o =
      ap₂ (λ ms c. ok (record { matches = ms; matched = o.matched; call_decoded = c }))
        (sym (append-nil o.matches)) (sym (not_marked cm.caps.call o.call_decoded))
  logs_pass_lem cm (l ∷ logs) o = by_log (seen env item cm l) (λ o'. logs_pass_lem cm logs o')
    where
      behind : List MonitorMatch → Bool → Bool → Outcome
      behind new hit seen_now = record {
        matches =
            o.matches
            ++ (new ++ flat_map (matches_at env item (o.call_decoded || cm.caps.call) cm) logs);
        matched = marked cm logs (if hit then cm.monitor.id ∷ o.matched else o.matched);
        call_decoded =
            o.call_decoded || (cm.caps.call && (seen_now || any (sees env item cm) logs));
      }

      Rest : Type 0
      Rest =
          (o' : Outcome)
          → logs_pass env item cm logs o'
            ≡ verdict (any (fails_at env item cm) logs) (after_logs cm logs o')

      new_of : DecodedLog → List MonitorMatch
      new_of d =
          map
            (log_match_of env item cm.monitor d (the_details env item)
              (json_of env item (o.call_decoded || cm.caps.call)))
            cm.monitor.actions

      pass_on : DecodedLog → Option Bool → Result RhaiError Outcome
      pass_on d a =
          elim (elim a as (λ x. Result RhaiError Outcome) [
            | none ↦ err runtime_error
            | some hit ↦ ok (
                if hit
                then with_log_match env item cm d (decoded_for env item cm o)
                else decoded_for env item cm o)
          ]) [ err e ↦ err e | ok o' ↦ logs_pass env item cm logs o' ]

      by_answer :
          (d : DecodedLog) (a : Option Bool)
          → Rest
          → pass_on d a
            ≡ verdict
                (refused a || any (fails_at env item cm) logs)
                (behind (if answered a then new_of d else []) (answered a) true)
      by_answer d none rest = refl
      by_answer d (some true) rest =
          rest (with_log_match env item cm d (decoded_for env item cm o))
          ∙ ap (verdict (any (fails_at env item cm) logs))
              (after_seen cm logs o.matches (new_of d) (cm.monitor.id ∷ o.matched) o.call_decoded)
      by_answer d (some false) rest =
          rest (decoded_for env item cm o)
          ∙ ap (verdict (any (fails_at env item cm) logs)) (
              ap₂
                (λ b c. record {
                  matches = o.matches ++ flat_map (matches_at env item b cm) logs;
                  matched = marked cm logs o.matched;
                  call_decoded = c;
                })
                (or_absorbs o.call_decoded cm.caps.call)
                (read_once o.call_decoded cm.caps.call (any (sees env item cm) logs)))

      by_log :
          (s : Option DecodedLog)
          → Rest
          → (elim s as (λ x. Result RhaiError Outcome) [
            | none ↦ logs_pass env item cm logs o
            | some d ↦ elim (log_step env item cm d o) [
              | err e ↦ err e
              | ok o' ↦ logs_pass env item cm logs o'
            ]
          ])
            ≡ verdict (fails_of env item cm s || any (fails_at env item cm) logs) (
                behind
                  (matches_of env item (o.call_decoded || cm.caps.call) cm s)
                  (hits_of env item cm s)
                  (sees_of env item s))
      by_log none rest = rest o
      by_log (some d) rest = by_answer d (answer env item cm (some d)) rest
