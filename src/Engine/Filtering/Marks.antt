-- ===== src/Engine/Filtering/Marks.antt =====
-- The matches of a monitor, and the mark that says it matched.
use argus_rs.Base.{
  Result, ok, err, false, true, [], ◌∙◌, sym, All, Bool, List, Result, [], ap, contains, err, false,
  nat_key, ok, pair_key, string_key, sym, true, ℕ, ◌++◌, ◌∙◌, ◌∷◌, ◌≡◌,
}
use argus_rs.Core.Matches.{MatchData, log_data, transaction_data, MonitorMatch}
use argus_rs.Engine.Evaluation.{RhaiError}
use argus_rs.Engine.Filtering.Reference.{Outcome}

abbrev is_log_data : MatchData → Bool
is_log_data (log_data d tx) = true
is_log_data (transaction_data tx) = false

abbrev pub is_log_match : MonitorMatch → Bool
is_log_match m = is_log_data m.match_data

-- Matches of one monitor are all of logs, or all of the transaction.
abbrev pub IsExclusive : List MonitorMatch → Type 0
IsExclusive ms =
    All
      (λ (m : MonitorMatch).
        All (λ (n : MonitorMatch). m.monitor_id ≡ n.monitor_id → is_log_match m ≡ is_log_match n)
          ms)
      ms

-- The log pass: matches are of logs, and their monitors are marked.
abbrev pub IsMarked : List ℕ → List MonitorMatch → Type 0
IsMarked ids ms =
    All (λ (m : MonitorMatch). (is_log_match m ≡ true) × (contains ids m.monitor_id ≡ true)) ms

-- Matches of logs are those of marked monitors.
abbrev pub IsSorted : List ℕ → List MonitorMatch → Type 0
IsSorted ids ms = All (λ (m : MonitorMatch). is_log_match m ≡ contains ids m.monitor_id) ms

pub All_map_all :
    {P Q : MonitorMatch → Type 0}
    → ((m : MonitorMatch) → P m → Q m)
    → (ms : List MonitorMatch) → All P ms
    → All Q ms
All_map_all f [] h = tt
All_map_all f (m ∷ ms) h = (f m h.0, All_map_all f ms h.1)

pub All-append :
    (P : MonitorMatch → Type 0) (ms ns : List MonitorMatch) → All P ms → All P ns → All P (ms ++ ns)
All-append P [] ns h k = k
All-append P (m ∷ ms) ns h k = (h.0, All-append P ms ns h.1 k)

pub IsSorted-IsExclusive :
    (ids : List ℕ) (ms : List MonitorMatch) → IsSorted ids ms → IsExclusive ms
IsSorted-IsExclusive ids ms h =
    All_map_all (λ m p. All_map_all (λ n q e. p ∙ ap (contains ids) e ∙ sym q) ms h) ms h

abbrev pub Marked : Outcome → Type 0
Marked o = IsMarked o.matched o.matches

abbrev pub Sorted : Outcome → Type 0
Sorted o = IsSorted o.matched o.matches

abbrev pub OkHas : (Outcome → Type 0) → Result RhaiError Outcome → Type 0
OkHas P (ok o) = P o
OkHas P (err e) = Unit

pub OkHas-bind :
    (P Q : Outcome → Type 0) (r : Result RhaiError Outcome) (g : Outcome → Result RhaiError Outcome)
    → OkHas P r
    → ((o : Outcome) → P o → OkHas Q (g o))
    → OkHas Q (elim r [ err e ↦ err e | ok o ↦ g o ])
OkHas-bind P Q (ok o) g h k = k o h
OkHas-bind P Q (err e) g h k = tt
