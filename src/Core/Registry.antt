-- ===== src/Core/Registry.antt =====
-- crates/argus-core/src/monitor.rs: which logs and calls some monitor is interested in.
use argus_rs.Base.{
  ℕ, Bool, true, false, not, ◌&&◌, Option, none, some, List, [], ◌∷◌, HashMap, get, contains,
  nat_key, is_empty,
}
use argus_rs.Core.Chain.{Log}

-- `none` under an address is broad mode, `some signatures` is precise mode.
pub record InterestRegistry : Type 0 where
  pub log_interests : HashMap ℕ (Option (List ℕ))
  pub calldata_addresses : List ℕ
  pub global_event_signatures : List ℕ

-- `log.topics().first().is_some_and(|topic0| signatures.contains(topic0))`
abbrev pub first_in : List ℕ → List ℕ → Bool
first_in [] signatures = false
first_in (topic0 ∷ rest) signatures = contains signatures topic0

unfoldable pub is_globally_monitored : InterestRegistry → Log → Bool
is_globally_monitored r log =
    not (is_empty r.global_event_signatures) && first_in log.topics r.global_event_signatures

unfoldable pub is_log_interesting : InterestRegistry → Log → Bool
unfolding is_globally_monitored
is_log_interesting r log = elim (get r.log_interests log.address) [
  | none ↦ is_globally_monitored r log
  | some none ↦ true
  | some (some specific_signatures) ↦ first_in log.topics specific_signatures
]

unfoldable pub is_calldata_interesting : InterestRegistry → Option ℕ → Bool
is_calldata_interesting r none = false
is_calldata_interesting r (some addr) = contains r.calldata_addresses addr
