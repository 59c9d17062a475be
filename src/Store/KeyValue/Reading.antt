-- ===== src/Store/KeyValue/Reading.antt =====
-- What a read by prefix finds.
use Prim.Native.Char.{code}
use argus_rs.Base.{
  ==_refl, Bool, HashMap, List, String, [], ap, arith, eq_iff, get, if◌then◌else◌, keep, nat_key,
  none, pair_key, refl, string_key, true, ℕ, ◌++◌, ◌∷◌, ◌≡◌,
}
use Prim.Native.String.{◌++◌ as ◌+++◌}
use text.Mathlib.TextLemmas.{nil-append, cons-append}
use argus_rs.Core.Payload.{codes}
use argus_rs.Store.KeyValue.{select_like, lowered, some_suffix, like}

pub codes-append : (s t : String) → codes (s +++ t) ≡ codes s ++ codes t
codes-append String.[] t = ap codes (nil-append t)
codes-append (String.◌∷◌ c s) t = rw (cons-append c s t) (ap (λ l. code c ∷ l) (codes-append s t))

some_suffix_here :
    (test : List ℕ → Bool) (cs : List ℕ) → test cs ≡ true → some_suffix test cs ≡ true
some_suffix_here test [] h = h
some_suffix_here test (c ∷ cs) h = ground (arith, h)

some_suffix-nil : (cs : List ℕ) → some_suffix (like []) cs ≡ true
unfolding like
some_suffix-nil [] = refl
some_suffix-nil (c ∷ cs) = some_suffix-nil cs

-- A text is like its own prefix with `%` behind it.
pub like_own_prefix : (ps cs : List ℕ) → like (ps ++ 37 ∷ []) (ps ++ cs) ≡ true
unfolding like
like_own_prefix [] [] = refl
like_own_prefix [] (c ∷ cs) = some_suffix-nil (c ∷ cs)
like_own_prefix (p ∷ ps) cs =
    let rest : like (ps ++ 37 ∷ []) (ps ++ cs) ≡ true = like_own_prefix ps cs in
    ground
      (arith, rest, some_suffix_here (like (ps ++ 37 ∷ [])) (ps ++ cs) rest, ==_refl (lowered p))

-- The value of each key that is like the pattern is found, and none of another.
pub get-select_like :
    (key_pattern : List ℕ) (rows : HashMap String String) (key : String)
    → get (select_like key_pattern rows) key
      ≡ (if like key_pattern (codes key) then get rows key else none)
unfolding select_like keep get
get-select_like key_pattern [] key = ground arith
get-select_like key_pattern ((k, v) ∷ rows) key =
    ground (arith, eq_iff k key, get-select_like key_pattern rows key)
