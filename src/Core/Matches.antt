-- ===== src/Core/Matches.antt =====
-- crates/argus-core/src/models/monitor_match.rs: matches and their builder. A JSON value is the text
-- that it prints as. How numbers and hashes are printed is `Formats`.
use argus_rs.Base.{Option, String, nat_key, none, string_key, ℕ}
use Prim.Native.String.{◌++◌ as ◌+++◌}

pub record LogDetails : Type 0 where
  pub address : ℕ
  pub log_index : ℕ
  pub name : String
  pub params : String

pub data MatchData : Type 0 where
  log_data : LogDetails → String → MatchData
  transaction_data : String → MatchData

pub record MonitorMatch : Type 0 where
  pub id : String
  pub monitor_id : ℕ
  pub monitor_name : String
  pub action_name : String
  pub block_number : ℕ
  pub transaction_hash : ℕ
  pub match_data : MatchData
  pub decoded_call : Option String

-- `MonitorMatchBuilder`; its parameter says whether the match data is set.
pub record MonitorMatchBuilder (State : Type 0) : Type 0 where
  pub monitor_id : ℕ
  pub monitor_name : String
  pub action_name : String
  pub block_number : ℕ
  pub transaction_hash : ℕ
  pub match_data : State
  pub decoded_call : Option String

unfoldable pub builder : ℕ → String → String → ℕ → ℕ → MonitorMatchBuilder (Unit {0})
builder monitor_id monitor_name action_name block_number transaction_hash = record {
  monitor_id = monitor_id;
  monitor_name = monitor_name;
  action_name = action_name;
  block_number = block_number;
  transaction_hash = transaction_hash;
  match_data = tt;
  decoded_call = none;
}

unfoldable pub with_match_data :
    MonitorMatchBuilder (Unit {0}) → MatchData → MonitorMatchBuilder MatchData
with_match_data b d = record {
  monitor_id = b.monitor_id;
  monitor_name = b.monitor_name;
  action_name = b.action_name;
  block_number = b.block_number;
  transaction_hash = b.transaction_hash;
  match_data = d;
  decoded_call = b.decoded_call;
}

unfoldable pub transaction_match :
    MonitorMatchBuilder (Unit {0}) → String → MonitorMatchBuilder MatchData
unfolding with_match_data
transaction_match b details = with_match_data b (transaction_data details)

unfoldable pub log_match :
    MonitorMatchBuilder (Unit {0}) → LogDetails → String → MonitorMatchBuilder MatchData
unfolding with_match_data
log_match b log_details tx_details = with_match_data b (log_data log_details tx_details)

unfoldable pub set_decoded_call :
    MonitorMatchBuilder MatchData → Option String → MonitorMatchBuilder MatchData
set_decoded_call b call = record b { decoded_call = call }

pub record Formats : Type 0 where
  pub number : ℕ → String
  pub hash : ℕ → String

-- The identifier of a match: `{monitor_id}-{action_name}-{transaction_hash}`, with
-- `-{log_index}` behind it for a log.
unfoldable pub match_id : Formats → MonitorMatchBuilder MatchData → String
match_id f b =
    let stem =
      f.number b.monitor_id +++ "-" +++ b.action_name +++ "-" +++ f.hash b.transaction_hash in
    elim b.match_data [
      | transaction_data details ↦ stem
      | log_data log_details tx_details ↦ stem +++ "-" +++ f.number log_details.log_index
    ]

unfoldable pub build : Formats → MonitorMatchBuilder MatchData → MonitorMatch
unfolding match_id
build f b = record {
  id = match_id f b;
  monitor_id = b.monitor_id;
  monitor_name = b.monitor_name;
  action_name = b.action_name;
  block_number = b.block_number;
  transaction_hash = b.transaction_hash;
  match_data = b.match_data;
  decoded_call = b.decoded_call;
}
