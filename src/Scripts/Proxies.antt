-- ===== src/Scripts/Proxies.antt =====
-- crates/argus-rhai/src/proxies.rs: what scripts read of a decoded log or call that may be missing.
use argus_rs.Base.{HashMap, Option, String, get, nat_key, none, some, string_key, ℕ}
use argus_rs.Abi.Values.{DecodedLog, DecodedCall, Printers}
use argus_rs.Scripts.Conversions.{Dynamic, unit, build_params_map}

-- `ParamsProxy`
abbrev pub index_get : Option (HashMap String Dynamic) → String → Dynamic
index_get none index = unit
index_get (some m) index = or_missing (get m index)
  where
    or_missing : Option Dynamic → Dynamic
    or_missing none = unit
    or_missing (some value) = value

abbrev pub or_zero : Option ℕ → ℕ
or_zero none = 0
or_zero (some n) = n

-- `LogProxy`
unfoldable pub log_name : Option DecodedLog → String
log_name none = ""
log_name (some d) = d.name

unfoldable pub log_address : Printers → Option DecodedLog → String
log_address p none = p.to_checksum 0
log_address p (some d) = p.to_checksum d.log.address

unfoldable pub log_index : Option DecodedLog → ℕ
log_index none = 0
log_index (some d) = or_zero d.log.log_index

unfoldable pub log_params : Printers → Option DecodedLog → Option (HashMap String Dynamic)
unfolding build_params_map
log_params p none = none
log_params p (some d) = some (build_params_map p d.params)

-- `CallProxy`
unfoldable pub call_name : Option DecodedCall → String
call_name none = ""
call_name (some c) = c.name

unfoldable pub call_params : Printers → Option DecodedCall → Option (HashMap String Dynamic)
unfolding build_params_map
call_params p none = none
call_params p (some c) = some (build_params_map p c.params)
