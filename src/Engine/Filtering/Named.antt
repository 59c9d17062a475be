-- ===== src/Engine/Filtering/Named.antt =====
-- The filter by event names, over the ABI service.
use argus_rs.Base.{
  true, false, Bool, List, Option, Result, String, contains, err, false, if◌then◌else◌, is_empty,
  nat_key, none, ok, pair_key, refl, some, string_key, true, ℕ, ◌||◌, ◌≡◌,
}
use argus_rs.Core.Chain.{Log}
use argus_rs.Abi.Values.{DecodedLog}
use argus_rs.Abi.Contracts.{Event}
use argus_rs.Abi.Service.{AbiError, Alloy, AbiService, peek_event_name, decode_log}
use argus_rs.Abi.Calls.{decode_function_input}
use argus_rs.Abi.Service.Names.{Reach}
use argus_rs.Abi.Service.Peeking.{Agrees, peek_event_name-Agrees}
use argus_rs.Monitor.Assets.{ClassifiedMonitor}
use argus_rs.Engine.Evaluation.{Decoder, Env}
use argus_rs.Engine.Filtering.{named_in, passes_names}

-- `.ok()`
abbrev pub to_option {ℓ κ} : {E : Type ℓ} {A : Type κ} → Result E A → Option A
to_option (ok a) = some a
to_option (err e) = none

abbrev pub abi_decoder : {SolType : Type 0} → Alloy SolType → AbiService SolType → Decoder
abi_decoder alloy s = record {
  peek_event_name = peek_event_name s;
  decode_log = λ log. to_option (decode_log alloy s log);
  decode_function_input = λ tx. to_option (decode_function_input alloy s tx);
}

-- The log that is decoded first and then looked at for its name.
abbrev pub kept_by_name : List String → Option DecodedLog → Option DecodedLog
kept_by_name names none = none
kept_by_name names (some d) = if is_empty names || contains names d.name then some d else none

abbrev no_log : Option DecodedLog
no_log = none

same_either_way : (b : Bool) → (if b then none else none) ≡ no_log
same_either_way true = refl
same_either_way false = refl

filter_commutes :
    (names : List String) (address : ℕ) (peeked : Option Event)
    (result : Result AbiError DecodedLog)
    → Agrees address peeked result
    → (if is_empty names || named_in names peeked then to_option result else none)
      ≡ kept_by_name names (to_option result)
filter_commutes names address (some event) (ok d) agrees = rw agrees refl
filter_commutes names address (some event) (err e) agrees =
    same_either_way (is_empty names || contains names event.name)
filter_commutes names address none (ok d) agrees = absurd agrees
filter_commutes names address none (err e) agrees = same_either_way (is_empty names || false)

-- An engine over an ABI service that was told of ABIs whose events have the names of their selectors:
-- a monitor sees a log exactly where the log decodes, and to an event that the script of the
-- monitor names if it names any. So the filter by the topic of a log drops no log that decodes to a
-- named event, and lets none pass that decodes to another.
pub named_logs_are_seen :
    {SolType : Type 0} {alloy : Alloy SolType} {names : ℕ → String} {s : AbiService SolType}
    → Reach alloy names s
    → (env : Env) → env.decoder ≡ abi_decoder alloy s
    → (cm : ClassifiedMonitor) (raw_log : Log)
    → (if passes_names env cm raw_log then env.decoder.decode_log raw_log else none)
      ≡ kept_by_name cm.analysis.accessed_log_event_names (to_option (decode_log alloy s raw_log))
unfolding passes_names
named_logs_are_seen {alloy} {s} reached env over cm raw_log = rw over (
    filter_commutes cm.analysis.accessed_log_event_names raw_log.address (peek_event_name s raw_log)
      (decode_log alloy s raw_log) (peek_event_name-Agrees reached raw_log))
