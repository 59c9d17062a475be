-- ===== src/Engine/Alerts/Synced.antt =====
-- The rows of the store after both kinds of states were written.
use argus_rs.Store.KeyValue.Reading.{codes-append}
use argus_rs.Core.Payload.{codes}
use argus_rs.Base.{
  get-insert_all, insert_all-append, insert_all-IsDistinct, cons_head, ◌≢◌, arith, ◌++◌, HashMap,
  IsDistinct, List, String, ap, false, get, insert_all, nat_key, or_else, pair_key, refl, some,
  string_key, sym, ◌∙◌, ◌≡◌,
}
use Prim.Native.String.{◌++◌ as ◌+++◌}
use argus_rs.Core.Actions.{ThrottleState, AggregationState}
use argus_rs.Store.KeyValue.{like, Serde}
use argus_rs.Store.KeyValue.Saving.{
  own_rows-LikeParses, other_rows-LikeParses, rows_of-IsDistinct, get-rows_of, get-rows_of_other,
}
use argus_rs.Store.KeyValue.Rows.{insert_all-LikeParses, and_then, LikeParses, RoundTrips, rows_of}

other_prefix : (a b : String) → "throttle_state:" +++ a ≢ "aggregation_state:" +++ b
other_prefix a b e = omega (
  arith,
  cons_head
      (sym (codes-append "throttle_state:" a) ∙ ap codes e ∙ codes-append "aggregation_state:" b),
)

throttle_unlike :
    (s : String)
    → like (codes ("throttle_state:" +++ "%")) (codes ("aggregation_state:" +++ s)) ≡ false
unfolding like
throttle_unlike s = rw (codes-append "aggregation_state:" s) refl

aggregation_unlike :
    (s : String)
    → like (codes ("aggregation_state:" +++ "%")) (codes ("throttle_state:" +++ s)) ≡ false
unfolding like
aggregation_unlike s = rw (codes-append "throttle_state:" s) refl

module _ (print_throttle : ThrottleState → String) (print_aggregation : AggregationState → String)
    (throttles : HashMap String ThrottleState) (aggregations : HashMap String AggregationState)
    (rows : HashMap String String) where
  abbrev pub throttle_rows : List (String × String)
  throttle_rows = rows_of "throttle_state:" print_throttle throttles

  abbrev pub aggregation_rows : List (String × String)
  aggregation_rows = rows_of "aggregation_state:" print_aggregation aggregations

  abbrev pub after : HashMap String String
  after = insert_all (throttle_rows ++ aggregation_rows) rows

  pub after-IsDistinct : IsDistinct rows → IsDistinct after
  after-IsDistinct d = insert_all-IsDistinct (throttle_rows ++ aggregation_rows) rows d

  -- A key of the rows after both were written.
  get-after :
      (key : String)
      → IsDistinct throttles
      → IsDistinct aggregations
      → get after key
        ≡ or_else (get aggregation_rows key) (or_else (get throttle_rows key) (get rows key))
  get-after key dt da =
      ap (λ m. get m key) (insert_all-append throttle_rows aggregation_rows rows)
      ∙ get-insert_all aggregation_rows (insert_all throttle_rows rows) key
          (rows_of-IsDistinct "aggregation_state:" print_aggregation aggregations da)
      ∙ ap (or_else (get aggregation_rows key)) (
          get-insert_all throttle_rows rows key
            (rows_of-IsDistinct "throttle_state:" print_throttle throttles dt))

  pub after-throttle :
      (name : String)
      → IsDistinct throttles
      → IsDistinct aggregations
      → get after ("throttle_state:" +++ name)
        ≡ or_else
            (and_then (get throttles name) (λ t. some (print_throttle t)))
            (get rows ("throttle_state:" +++ name))
  after-throttle name dt da =
      get-after ("throttle_state:" +++ name) dt da
      ∙ ap
          (λ o. or_else o (
            or_else (get throttle_rows ("throttle_state:" +++ name))
              (get rows ("throttle_state:" +++ name))))
          (get-rows_of_other "aggregation_state:" print_aggregation aggregations
            ("throttle_state:" +++ name) (λ n e. other_prefix name n (sym e)))
      ∙ ap (λ o. or_else o (get rows ("throttle_state:" +++ name)))
          (get-rows_of "throttle_state:" print_throttle throttles name)

  pub after-aggregation :
      (name : String)
      → IsDistinct throttles
      → IsDistinct aggregations
      → get after ("aggregation_state:" +++ name)
        ≡ or_else
            (and_then (get aggregations name) (λ t. some (print_aggregation t)))
            (get rows ("aggregation_state:" +++ name))
  after-aggregation name dt da =
      get-after ("aggregation_state:" +++ name) dt da
      ∙ ap
          (λ o.
            or_else (get aggregation_rows ("aggregation_state:" +++ name))
              (or_else o (get rows ("aggregation_state:" +++ name))))
          (get-rows_of_other "throttle_state:" print_throttle throttles
            ("aggregation_state:" +++ name) (λ n e. other_prefix n name e))
      ∙ ap (λ o. or_else o (get rows ("aggregation_state:" +++ name)))
          (get-rows_of "aggregation_state:" print_aggregation aggregations name)

  pub after_throttles_parse :
      (serde : Serde ThrottleState)
      → RoundTrips serde print_throttle throttles
      → LikeParses serde (codes ("throttle_state:" +++ "%")) rows
      → LikeParses serde (codes ("throttle_state:" +++ "%")) after
  after_throttles_parse serde law h = rw (insert_all-append throttle_rows aggregation_rows rows) (
      insert_all-LikeParses serde (codes ("throttle_state:" +++ "%")) aggregation_rows
        (insert_all throttle_rows rows)
        (other_rows-LikeParses serde (codes ("throttle_state:" +++ "%")) "aggregation_state:"
          print_aggregation aggregations throttle_unlike)
        (insert_all-LikeParses serde (codes ("throttle_state:" +++ "%")) throttle_rows rows
          (own_rows-LikeParses serde (codes ("throttle_state:" +++ "%")) "throttle_state:"
            print_throttle throttles law)
          h))

  pub after_aggregations_parse :
      (serde : Serde AggregationState)
      → RoundTrips serde print_aggregation aggregations
      → LikeParses serde (codes ("aggregation_state:" +++ "%")) rows
      → LikeParses serde (codes ("aggregation_state:" +++ "%")) after
  after_aggregations_parse serde law h =
      rw (insert_all-append throttle_rows aggregation_rows rows) (
        insert_all-LikeParses serde (codes ("aggregation_state:" +++ "%")) aggregation_rows
          (insert_all throttle_rows rows)
          (own_rows-LikeParses serde (codes ("aggregation_state:" +++ "%")) "aggregation_state:"
            print_aggregation aggregations law)
          (insert_all-LikeParses serde (codes ("aggregation_state:" +++ "%")) throttle_rows rows
            (other_rows-LikeParses serde (codes ("aggregation_state:" +++ "%")) "throttle_state:"
              print_throttle throttles aggregation_unlike)
            h))
