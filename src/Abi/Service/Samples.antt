-- ===== src/Abi/Service/Samples.antt =====
-- A service with one ABI, which is linked to an address and global.
use argus_rs.Base.{
  List, Option, String, [], err, nat_key, none, ok, refl, some, string_key, ℕ, ◌∷◌, ◌≡◌,
}
use argus_rs.Core.Chain.{Log}
use argus_rs.Abi.Values.{DynSolValue, uint_value, tuple_value, nil}
use argus_rs.Abi.Contracts.{cached_contract, Event, Function, JsonAbi}
use argus_rs.Abi.Service.{
  insert, get, Alloy, AbiService, new, register_abi, add_global_abi, link_abi, peek_event_name,
  decode_log, decoding_error,
}
use argus_rs.Abi.Service.Names.{Reach, start, next, register, link, add_global}
use argus_rs.Abi.Service.Peeking.{Agrees, peek_event_name-Agrees}

-- Words are decoded one by one, and an empty payload does not decode.
abbrev pub decode_parts : Event → List ℕ → List ℕ → Option (List DynSolValue × List DynSolValue)
decode_parts event topics [] = none
decode_parts event topics (n ∷ ns) = some ([], uint_value n 256 ∷ [])

abbrev pub alloy : Alloy String
alloy = record {
  parse_type = λ t. some t;
  decode_log_parts = decode_parts;
  abi_decode = λ types bytes. some (tuple_value nil);
}

abbrev pub transfer : Event
transfer = record { name = "Transfer"; inputs = ("value", "uint256") ∷ []; selector = 11 }

abbrev pub approve : Function
approve = record { name = "approve"; inputs = ("value", "uint256") ∷ []; selector = 7 }

abbrev pub erc20 : JsonAbi
erc20 = record {
  allocation = 1;
  functions = ("approve", approve ∷ []) ∷ [];
  events = ("Transfer", transfer ∷ []) ∷ [];
}

abbrev pub names : ℕ → String
names selector = "Transfer"

abbrev pub registered : AbiService String
registered = register_abi "erc20" erc20 new

abbrev pub global : AbiService String
global = (add_global_abi alloy "erc20" registered).1

abbrev pub service : AbiService String
service = (link_abi alloy 100 "erc20" global).1

abbrev pub log_at : ℕ → List ℕ → Log
log_at address payload = record {
  address = address;
  topics = 11 ∷ 5 ∷ [];
  payload = payload;
  block_number = some 1;
  transaction_hash = some 2;
  log_index = some 3;
}

-- The log of another address is decoded by the global ABI.
global_log_decodes :
    decode_log alloy service (log_at 200 (9 ∷ []))
    ≡ ok (record {
      log = log_at 200 (9 ∷ []);
      name = "Transfer";
      params = ("value", uint_value 9 256) ∷ [];
    })
unfolding decode_log add_global_abi link_abi register_abi argus_rs.Base.get argus_rs.Base.insert
    cached_contract
global_log_decodes = refl

empty_log_fails :
    decode_log alloy service (log_at 100 []) ≡ err (decoding_error 100 "event Transfer")
unfolding decode_log add_global_abi link_abi register_abi argus_rs.Base.get argus_rs.Base.insert
    cached_contract
empty_log_fails = refl

pub reached : Reach alloy names service
reached =
    next (next (next start (register new "erc20" erc20 (refl, tt))) (add_global registered "erc20"))
      (link global 100 "erc20")

peek_event_name-Agrees_example :
    Agrees 200
      (peek_event_name service (log_at 200 (9 ∷ [])))
      (decode_log alloy service (log_at 200 (9 ∷ [])))
peek_event_name-Agrees_example = peek_event_name-Agrees reached (log_at 200 (9 ∷ []))
