-- ===== src/Int64.antt =====
-- Arithmetic on int64_t, where a result that does not fit is undefined behaviour, and the loops over
-- int64_t coordinates.
use blue_space.Prelude.{
  ℕ, zero, suc, ◌+◌, ◌-◌, ◌^◌, ◌≤◌, ◌<◌, ◌≡◌, refl, true, false, ◌&&◌, List, [], ◌∷◌, leb, ltb,
  if◌then◌else◌, arith,
}
use blue_space.Prelude.Int.{
  ℤ, pos, negsuc, pos_part, neg_part, ◌+ℤ◌, ◌-ℤ◌, -ℤ_parts, ltb_ℤ, loop_values, +ℤ_parts,
}
use blue_space.Outcome.{Outcome, done, dies, signed_overflow, ◌>>=◌}

abbrev pub IsInt64 : ℤ → Type 0
IsInt64 a = (pos_part a < 2 ^ 63) × (neg_part a ≤ 2 ^ 63)

-- INT64_MIN
abbrev pub int64_min : ℤ
int64_min = negsuc (2 ^ 63 - 1)

-- The value of an expression of type int64_t.
unfoldable pub int64 : ℤ → Outcome ℤ
int64 a =
    if ltb (pos_part a) (2 ^ 63) && leb (neg_part a) (2 ^ 63) then done a else dies signed_overflow

-- The values of x in `for (x = start; x < start + side_length; ++x)`, where the sum is computed in
-- each round, with `fuel` rounds at most.
unfoldable pub int64_values : ℕ → ℤ → ℤ → ℕ → Outcome (List ℤ)
int64_values zero x start side_length = done []
int64_values (suc fuel) x start side_length = do
  end ← int64 (start +ℤ pos side_length)
  elim (ltb_ℤ x end) [
    | true ↦ do
      x' ← int64 (x +ℤ pos 1)
      rest ← int64_values fuel x' start side_length
      done (x ∷ rest)
    | false ↦ done []
  ]

pub int64-eq-done : (a : ℤ) → IsInt64 a → int64 a ≡ done a
unfolding int64
int64-eq-done a h = ground arith

-- No number of the loop is larger than its end, so that a loop whose end fits computes no other
-- number that does not.
pub int64_values-loop_values :
    (fuel : ℕ) (x start : ℤ) (side_length : ℕ)
    → IsInt64 x
    → IsInt64 (start +ℤ pos side_length)
    → int64_values fuel x start side_length ≡ done (loop_values fuel x (start +ℤ pos side_length))
unfolding int64_values loop_values
int64_values-loop_values zero x start side_length h end = refl
int64_values-loop_values (suc fuel) x start side_length h end = ground (
  arith,
  int64-eq-done (start +ℤ pos side_length) end,
  int64-eq-done (x +ℤ pos 1),
  +ℤ_parts x (pos 1),
  int64_values-loop_values fuel (x +ℤ pos 1) start side_length,
)

-- The values of the variable of such a loop; the rounds are those of `Cpu.Mine.coordinates`.
unfoldable pub int64_coordinates : ℤ → ℕ → Outcome (List ℤ)
int64_coordinates start side_length = int64_values (suc side_length) start start side_length

-- Every integer from `start` to the end of the loop fits, and so does its opposite.
abbrev pub IsInside : ℤ → ℕ → Type 0
IsInside start side_length =
    (neg_part start < 2 ^ 63) × (pos_part start + side_length < 2 ^ 63 + neg_part start)

IsInside-IsInt64 :
    (start : ℤ) (side_length : ℕ)
    → IsInside start side_length
    → IsInt64 start × IsInt64 (start +ℤ pos side_length)
unfolding ◌+ℤ◌
IsInside-IsInt64 start side_length h = ground arith

-- A loop whose end fits has the values that it has over the integers.
pub int64_coordinates-eq-done :
    (start : ℤ) (side_length : ℕ)
    → IsInside start side_length
    → int64_coordinates start side_length
      ≡ done (loop_values (suc side_length) start (start +ℤ pos side_length))
unfolding int64_coordinates
int64_coordinates-eq-done start side_length h =
    let (first, last) = IsInside-IsInt64 start side_length h in
    int64_values-loop_values (suc side_length) start start side_length first last

-- An int64_t whose opposite is one, too.
abbrev pub HasOpposite : ℤ → Type 0
HasOpposite c = (pos_part c < 2 ^ 63) × (neg_part c < 2 ^ 63)

pub add-IsInt64 :
    (start : ℤ) (side_length k : ℕ)
    → IsInside start side_length
    → k ≤ side_length
    → IsInt64 (start +ℤ pos k)
unfolding ◌+ℤ◌
add-IsInt64 start side_length k h l = ground arith

-- The opposite of a number that has one.
pub neg-eq-done : (c : ℤ) → HasOpposite c → int64 (pos 0 -ℤ c) ≡ done (pos 0 -ℤ c)
neg-eq-done c h = ground (arith, int64-eq-done (pos 0 -ℤ c), -ℤ_parts (pos 0) c)

-- The k-th integer of such a loop.
pub coordinate-HasOpposite :
    (start : ℤ) (side_length k : ℕ)
    → IsInside start side_length
    → k < side_length
    → HasOpposite (start +ℤ pos k)
unfolding ◌+ℤ◌
coordinate-HasOpposite start side_length k h l = ground arith
