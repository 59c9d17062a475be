-- ===== src/Core/Payload/Samples.antt =====
-- The key of two matches in both orders.
use argus_rs.Core.Payload.Ordering.{idempotency_key-perm}
use argus_rs.Core.Payload.{aggregated, idempotency_key}
use argus_rs.Core.Matches.{
  with_match_data, builder, match_id, log_match, build, MonitorMatch, Formats,
}
use argus_rs.Core.Actions.{NotificationMessage}
use argus_rs.Base.{[], if◌then◌else◌, is_empty, nat_key, refl, string_key, ℕ, ◌==◌, ◌∷◌, ◌≡◌}
use mathlib.Core.List.{Permᴰ}

-- A stand-in for printing that tells small numbers apart.
abbrev formats : Formats
formats = record {
  number = λ n. if n == 0 then "0" else "1";
  hash = λ n. if n == 0 then "0x00" else "0x01";
}

abbrev in_log : ℕ → MonitorMatch
in_log index = build formats (
    log_match (builder 1 "transfers" "notify" 20 1)
      (record { address = 7; log_index = index; name = "Transfer"; params = "{}" }) "{}")

id_of_log : (in_log 0).id ≡ "1-notify-0x01-0"
unfolding build match_id builder log_match with_match_data
id_of_log = refl

abbrev template : NotificationMessage
template = record { title = "matches"; body = "" }

idempotency_key-perm_example :
    idempotency_key
      (λ ts. if is_empty ts then "" else "agg-1")
      (aggregated "notify" (in_log 0 ∷ in_log 1 ∷ []) template)
    ≡ idempotency_key
        (λ ts. if is_empty ts then "" else "agg-1")
        (aggregated "notify" (in_log 1 ∷ in_log 0 ∷ []) template)
idempotency_key-perm_example =
    idempotency_key-perm (λ ts. if is_empty ts then "" else "agg-1") "notify" "notify"
      (in_log 0 ∷ in_log 1 ∷ []) (in_log 1 ∷ in_log 0 ∷ []) template template (Permᴰ.swap refl refl)
