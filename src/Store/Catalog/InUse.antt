-- ===== src/Store/Catalog/InUse.antt =====
-- An action that a monitor names is seen to be in use.
use argus_rs.Core.Actions.{ActionConfig}
use argus_rs.Base.{
  ==_refl, All, Bool, Bool-cases, List, Option, Option-cases, Result-cases, String, [], ap, false,
  inl, inr, keep, nat_key, ok, or_true, pair_key, refl, some, string_key, sym, true, ℕ, ◌&&◌, ◌++◌,
  ◌+◌, ◌==◌, ◌||◌, ◌∙◌, ◌∷◌, ◌≡◌, ◌≢◌,
}
use mathlib.Core.Path.{subst}
use argus_rs.Core.Payload.{codes}
use argus_rs.Store.KeyValue.{lowered, some_suffix}
use argus_rs.Store.Catalog.{Faults, ActionRow, MonitorRow, CatalogDatabase, execute}
use argus_rs.Store.Catalog.Lookup.{first_that}
use argus_rs.Store.Catalog.Actions.{
  is_action, is_monitor_with, like_escaped, escaped, like_clause, read_configs, monitors_with,
  get_action_by_id, get_monitors_by_action_id,
}

-- A name without the escape character.
abbrev pub IsPlain : List ℕ → Type 0
IsPlain cs = All (λ c. (c == 92) ≡ false) cs

-- The name stands in the text, in quotes.
abbrev pub Quotes : List ℕ → List ℕ → Type 0
Quotes name text =
    (before : List ℕ) × (behind : List ℕ) × (text ≡ before ++ (34 ∷ name ++ 34 ∷ behind))

like_escaped-own :
    (name rest text : List ℕ)
    → IsPlain name
    → like_escaped false (escaped name ++ rest) (name ++ text) ≡ like_escaped false rest text
unfolding like_escaped escaped
like_escaped-own [] rest text plain = refl
like_escaped-own (c ∷ cs) rest text plain = elim (Bool-cases (c == 37)) [
  | inl percent ↦ rw percent (same (like_escaped-own cs rest text plain.1))
  | inr other ↦ rw other (elim (Bool-cases (c == 95)) [
    | inl underscore ↦ rw underscore (same (like_escaped-own cs rest text plain.1))
    | inr letter ↦
        rw (letter, other, plain.0, letter) (same (like_escaped-own cs rest text plain.1))
  ])
]
  where
    same : {b b' : Bool} → b ≡ b' → ((lowered c == lowered c) && b) ≡ b'
    same {b} e = ap (λ l. l && b) (==_refl (lowered c)) ∙ e

some_suffix-append :
    (test : List ℕ → Bool) (before cs : List ℕ)
    → test cs ≡ true
    → some_suffix test (before ++ cs) ≡ true
some_suffix-append test [] [] h = h
some_suffix-append test [] (c ∷ cs) h = ap (λ b. b || some_suffix test cs) h
some_suffix-append test (b ∷ before) cs h =
    ap (λ b'. test (b ∷ before ++ cs) || b') (some_suffix-append test before cs h)
    ∙ or_true (test (b ∷ before ++ cs))

like_escaped-percent :
    (ps cs : List ℕ) → like_escaped false (37 ∷ ps) cs ≡ some_suffix (like_escaped false ps) cs
unfolding like_escaped
like_escaped-percent ps [] = refl
like_escaped-percent ps (c ∷ cs) = refl

like_escaped-any : (cs : List ℕ) → like_escaped false (37 ∷ []) cs ≡ true
unfolding like_escaped
like_escaped-any [] = refl
like_escaped-any (c ∷ cs) = sym (like_escaped-percent [] cs) ∙ like_escaped-any cs

quoted-like :
    (name text : List ℕ)
    → IsPlain name
    → Quotes name text
    → like_escaped false (37 ∷ 34 ∷ escaped name ++ 34 ∷ 37 ∷ []) text ≡ true
unfolding like_escaped
quoted-like name text plain (before, behind, whole) =
    ap (like_escaped false (37 ∷ 34 ∷ escaped name ++ 34 ∷ 37 ∷ [])) whole
    ∙ like_escaped-percent (34 ∷ escaped name ++ 34 ∷ 37 ∷ [])
        (before ++ (34 ∷ name ++ 34 ∷ behind))
    ∙ some_suffix-append (like_escaped false (34 ∷ escaped name ++ 34 ∷ 37 ∷ [])) before
        (34 ∷ name ++ 34 ∷ behind)
        (like_escaped-own name (34 ∷ 37 ∷ []) (34 ∷ behind) plain ∙ like_escaped-any behind)

keep-found :
    (test : MonitorRow → Bool) (before : List MonitorRow) (row : MonitorRow)
    (behind : List MonitorRow)
    → test row ≡ true
    → keep test (before ++ row ∷ behind) ≢ []
unfolding keep
keep-found test [] row behind h = rw h (λ e. cc)
keep-found test (x ∷ before) row behind h = elim (Bool-cases (test x)) [
  | inl also ↦ rw also (λ e. cc)
  | inr other ↦ rw other (keep-found test before row behind h)
]

read_configs-some :
    (from_text : String → Option (List String)) (rows : List MonitorRow)
    → rows ≢ []
    → read_configs from_text rows ≢ ok []
unfolding read_configs
read_configs-some from_text [] h = absurd (h refl)
read_configs-some from_text (row ∷ rows) h = elim (Option-cases (from_text row.actions)) [
  | inl failed ↦ rw (failed, read_configs) (λ e. cc)
  | inr (actions, good) ↦
      rw (good, read_configs)
        (elim (Result-cases (read_configs from_text rows)) [
          | inl (configs, read) ↦ rw (read, read_configs) (λ e. cc)
          | inr (e, failed) ↦ rw (failed, read_configs) (λ e. cc)
        ])
]

monitors_with-some :
    (from_text : String → Option (List String)) (fails : Faults) (network_id : String)
    (action : ActionConfig) (db : CatalogDatabase)
    → keep (is_monitor_with network_id action.name) db.catalog.monitors ≢ []
    → (monitors_with from_text fails network_id (some action) db).0 ≢ ok []
unfolding monitors_with execute
monitors_with-some from_text fails network_id action db h =
    elim (Bool-cases (fails db.statements)) [
      | inl faulty ↦ rw faulty (λ e. cc)
      | inr sound ↦ rw sound (
          read_configs-some from_text
            (keep (is_monitor_with network_id action.name) db.catalog.monitors) h)
    ]

-- Where a monitor of the network has the name of the action in quotes among its actions, as JSON
-- writes a name that needs no escape, and the name has no backslash: the monitors of the action are
-- never reported to be none, whatever fails, so that the action is not taken for unused.
pub action_in_use_is_seen :
    (parse_action : String → Option ActionConfig) (from_text : String → Option (List String))
    (fails : Faults) (network_id : String) (action_id : ℕ) (db : CatalogDatabase)
    (action : ActionRow) (row : MonitorRow) (before behind : List MonitorRow)
    → first_that (is_action network_id action_id) db.catalog.actions ≡ some action
    → db.catalog.monitors ≡ before ++ row ∷ behind
    → row.network ≡ network_id
    → IsPlain (codes action.name)
    → Quotes (codes action.name) (codes row.actions)
    → (get_monitors_by_action_id parse_action from_text fails network_id action_id db).0 ≢ ok []
unfolding get_monitors_by_action_id get_action_by_id execute
action_in_use_is_seen parse_action from_text fails network_id action_id db action row before behind
      there among same plain quotes =
    elim (Bool-cases (fails db.statements)) [
      | inl faulty ↦ rw faulty (λ e. cc)
      | inr sound ↦
          rw (sound, there)
            (elim (Option-cases (parse_action action.config)) [
              | inl failed ↦ rw failed (λ e. cc)
              | inr (a, parsed) ↦ rw parsed (
                  monitors_with-some from_text fails network_id
                    (record a { id = some action.action_id; name = action.name })
                    (record db { statements = db.statements + 1 }) found)
            ])
    ]
  where
    found : keep (is_monitor_with network_id action.name) db.catalog.monitors ≢ []
    found =
        subst (λ rows. keep (is_monitor_with network_id action.name) rows ≢ []) (sym among)
          (keep-found (is_monitor_with network_id action.name) before row behind (
            ap
              (λ n.
                (n == network_id)
                && like_escaped false (like_clause action.name) (codes row.actions))
              same
            ∙ ap (λ b. b && like_escaped false (like_clause action.name) (codes row.actions))
                (==_refl network_id)
            ∙ quoted-like (codes action.name) (codes row.actions) plain quotes))
