-- ===== src/Base/Keys.antt =====
-- Keys of tables: what has an equality test that decides `≡`. Numbers and texts are keys.
use Prim.Native.Nat.{ℕ, compare, Ordering}
use Prim.Native.String.{String}
use mathlib.Core.Path.{◌≡◌}
use mathlib.Core.Logic.{◌↔◌}
use mathlib.Core.Bool.{Bool, true, false, ◌&&◌}
use native.Mathlib.Omega.{arith}
use text.Mathlib.Text
use text.Mathlib.TextEquality

pub record Key {ℓ} (K : Type ℓ) : Type ℓ where
  pub same : K → K → Bool
  pub decides : (j k : K) → (same j k ≡ true) ↔ (j ≡ k)

-- Rust's `==`, at whatever key.
infix 50 ◌==◌
abbrev pub ◌==◌ {ℓ} : {K : Type ℓ} ⦃key : Key K⦄ → K → K → Bool
◌==◌ ⦃key⦄ j k = key.same j k

abbrev same_number : ℕ → ℕ → Bool
same_number j k = elim (compare j k) [ Ordering.eq ↦ true | _ ↦ false ]

pub same_number-decides : (j k : ℕ) → (same_number j k ≡ true) ↔ (j ≡ k)
same_number-decides j k = ground arith

instance abbrev pub nat_key : Key ℕ
nat_key = record { same = same_number; decides = same_number-decides }

instance abbrev pub string_key : Key String
string_key = record { same = Text.◌==◌; decides = TextEquality.eq_iff }

-- Keys of two parts.
pub same_pair-decides {ℓ κ} :
    {A : Type ℓ} {B : Type κ} ⦃d : Key A⦄ ⦃e : Key B⦄ (j k : A × B)
    → ((d.same j.0 k.0 && e.same j.1 k.1) ≡ true) ↔ (j ≡ k)
same_pair-decides ⦃d⦄ ⦃e⦄ j k = ground (arith, d.decides j.0 k.0, e.decides j.1 k.1)

instance abbrev pub pair_key : Key (ℕ × ℕ)
pair_key = record {
  same = λ j k. same_number j.0 k.0 && same_number j.1 k.1;
  decides = same_pair-decides;
}
