-- ===== src/Engine/Alerts/Aggregation.antt =====
-- What the aggregation states hold.
use argus_rs.Base.{
  ==_refl, Bool, Bool-cases, HashMap, List, String, [], any, ap, arith, eq_iff, false, get,
  get-insert, if◌then◌else◌, inl, inr, insert, nat_key, ok, refl, some, string_key, sym, true, ℕ,
  ◌++◌, ◌==◌, ◌||◌, ◌∙◌, ◌∷◌, ◌≡◌,
}
use argus_rs.Core.Matches.{MonitorMatch}
use argus_rs.Core.Actions.{AggregationState}
use argus_rs.Engine.Alerts.{
  Env, AlertManager, has_id, or_default, collect_match, handle_aggregation,
}

insert-insert :
    {V : Type 0} (m : HashMap String V) (k : String) (v w : V)
    → insert (insert m k v) k w ≡ insert m k w
unfolding insert
insert-insert [] k v w = rw (==_refl k) refl
insert-insert ((j, u) ∷ m) k v w = elim (Bool-cases (j == k)) [
  | inl here ↦ rw (here, ==_refl k) refl
  | inr there ↦ rw (there, there) (ap (λ l. (j, u) ∷ l) (insert-insert m k v w))
]

any-append :
    {A : Type 0} (p : A → Bool) (xs ys : List A) → any p (xs ++ ys) ≡ (any p xs || any p ys)
unfolding any
any-append p [] ys = refl
any-append p (x ∷ xs) ys = ground (arith, any-append p xs ys)

-- What is collected under an action.
abbrev pub collected : {S : Type 0} → AlertManager S → String → List MonitorMatch
collected s name = (or_default (get s.aggregation_states name)).matches

any-has_id_collected :
    (now : ℕ) (m : MonitorMatch) (state : AggregationState)
    → any (has_id m.id) (collect_match now m state).matches ≡ true
unfolding collect_match any
any-has_id_collected now m state =
    any-append (has_id m.id) state.matches (m ∷ []) ∙ rw (==_refl m.id) (ground arith)

module _ {S : Type 0} (env : Env S) (m : MonitorMatch) where
  handle_aggregation-known :
      (state : AggregationState) (s : AlertManager S)
      → get s.aggregation_states m.action_name ≡ some state
      → any (has_id m.id) state.matches ≡ true
      → handle_aggregation env m s
        ≡ (ok tt, record s { aggregation_states = insert s.aggregation_states m.action_name state })
  unfolding handle_aggregation
  handle_aggregation-known state s found known = rw (found, known, handle_aggregation) refl

  handle_aggregation-again :
      (states : HashMap String AggregationState) (state : AggregationState) (t : AlertManager S)
      → t.aggregation_states ≡ insert states m.action_name state
      → any (has_id m.id) state.matches ≡ true
      → handle_aggregation env m t ≡ (ok tt, t)
  handle_aggregation-again states state t e known =
      handle_aggregation-known state t
        (ap (λ a. get a m.action_name) e
          ∙ get-insert states m.action_name m.action_name state
          ∙ ap (λ b. if b then some state else get states m.action_name) (==_refl m.action_name))
        known
      ∙ ap (λ a. (ok tt, record t { aggregation_states = a }))
          (ap (λ a. insert a m.action_name state) e
            ∙ insert-insert states m.action_name state state
            ∙ sym e)

-- A match that is handled again changes nothing, whatever was collected before.
handle_aggregation_idem :
    {S : Type 0} (env : Env S) (m : MonitorMatch) (s : AlertManager S)
    → handle_aggregation env m (handle_aggregation env m s).1 ≡ handle_aggregation env m s
unfolding handle_aggregation
handle_aggregation_idem env m s =
    let state = or_default (get s.aggregation_states m.action_name) in
    let grown = collect_match (env.clock s.ticks) m state in
    elim (Bool-cases (any (has_id m.id) state.matches)) [
      | inl known ↦
          rw (known, handle_aggregation)
            (handle_aggregation-again env m s.aggregation_states state _ refl known)
      | inr unknown ↦
          rw (unknown, handle_aggregation)
            (handle_aggregation-again env m s.aggregation_states grown _ refl
              (any-has_id_collected (env.clock s.ticks) m state))
    ]

-- No two matches have the same identifier.
abbrev pub HasDistinctIds : List MonitorMatch → Type 0
HasDistinctIds [] = Unit
HasDistinctIds (m ∷ ms) = (any (has_id m.id) ms ≡ false) × HasDistinctIds ms

HasDistinctIds-snoc :
    (ms : List MonitorMatch) (m : MonitorMatch)
    → HasDistinctIds ms
    → any (has_id m.id) ms ≡ false
    → HasDistinctIds (ms ++ m ∷ [])
unfolding any
HasDistinctIds-snoc [] m d e = (refl, tt)
HasDistinctIds-snoc (x ∷ xs) m d e = (
  any-append (has_id x.id) xs (m ∷ []) ∙ ground (arith, d.0, e, eq_iff x.id m.id, eq_iff m.id x.id),
  HasDistinctIds-snoc xs m d.1 (ground (arith, e)),
)

-- No action collects two matches with one identifier, if it is so before a match is handled.
pub handle_aggregation-HasDistinctIds :
    {S : Type 0} (env : Env S) (m : MonitorMatch) (s : AlertManager S)
    → ((name : String) → HasDistinctIds (collected s name))
    → (name : String) → HasDistinctIds (collected (handle_aggregation env m s).1 name)
unfolding handle_aggregation collect_match
handle_aggregation-HasDistinctIds env m s distinct name =
    let state = or_default (get s.aggregation_states m.action_name) in
    elim (Bool-cases (any (has_id m.id) state.matches)) [
      | inl known ↦ rw (known, handle_aggregation) (stored state (distinct m.action_name))
      | inr unknown ↦
          rw (unknown, handle_aggregation)
            (stored (collect_match (env.clock s.ticks) m state)
              (HasDistinctIds-snoc state.matches m (distinct m.action_name) unknown))
    ]
  where
    stored :
        (new : AggregationState)
        → HasDistinctIds new.matches
        → HasDistinctIds
            (or_default (get (insert s.aggregation_states m.action_name new) name)).matches
    stored new d =
        rw (get-insert s.aggregation_states m.action_name name new)
          (elim (Bool-cases (m.action_name == name)) [
            | inl same ↦ rw same d
            | inr other ↦ rw other (distinct name)
          ])
