-- ===== src/Core/Payload.antt =====
-- crates/argus-core/src/action_dispatcher/payload.rs. The standard hasher and the hexadecimal print
-- of its result are a parameter, `digest`: what it makes of the texts hashed one after the other.
pub mod Ordering
mod Samples
use argus_rs.Base.{
  Bool, List, String, [], false, if◌then◌else◌, leb, ltb, map, nat_key, string_key, true, ℕ, ◌&&◌,
  ◌||◌, ◌∷◌,
}
use Prim.Native.Char.{code}
use argus_rs.Core.Matches.{MonitorMatch}
use argus_rs.Core.Actions.{NotificationMessage}

pub data ActionPayload : Type 0 where
  single : MonitorMatch → ActionPayload
  aggregated : String → List MonitorMatch → NotificationMessage → ActionPayload

unfoldable pub action_name : ActionPayload → String
action_name (single m) = m.action_name
action_name (aggregated name matches template) = name

unfoldable pub monitor_name : ActionPayload → String
monitor_name (single m) = m.monitor_name
monitor_name (aggregated name [] template) = ""
monitor_name (aggregated name (m ∷ ms) template) = m.monitor_name

-- The code points of a text. Their order is the order of the bytes of its UTF-8 form.
abbrev pub codes : String → List ℕ
codes String.[] = []
codes (String.◌∷◌ c s) = code c ∷ codes s

-- `Ord` of `str`
unfoldable pub le_text : List ℕ → List ℕ → Bool
le_text [] bs = true
le_text (a ∷ as') [] = false
le_text (a ∷ as') (b ∷ bs) = let rest = le_text as' bs in ltb a b || (leb a b && rest)

unfoldable pub insert_text : List ℕ → List (List ℕ) → List (List ℕ)
insert_text t [] = t ∷ []
insert_text t (u ∷ us) = let rest = insert_text t us in if le_text t u then t ∷ u ∷ us else u ∷ rest

-- `sort_unstable`
unfoldable pub sort_texts : List (List ℕ) → List (List ℕ)
unfolding insert_text
sort_texts [] = []
sort_texts (t ∷ ts) = insert_text t (sort_texts ts)

abbrev pub id_codes : MonitorMatch → List ℕ
id_codes m = codes m.id

unfoldable pub idempotency_key : (List (List ℕ) → String) → ActionPayload → String
unfolding sort_texts
idempotency_key digest (single m) = m.id
idempotency_key digest (aggregated name matches template) =
    digest (sort_texts (map id_codes matches))
