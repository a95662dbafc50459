-- ===== src/Prelude/Loops.antt =====
-- Loops over consecutive integers: the values that the loop's variable takes.
use blue_space.Prelude.{
  ℕ, zero, suc, ◌+◌, ◌<◌, ◌≡◌, ◌↔◌, refl, ap, inl, inr, List, [], ◌∷◌, Mem, arith, length, Nodup,
  dec_lt,
}
use blue_space.Prelude.Int.{
  ℤ, pos, pos_part, neg_part, ◌+ℤ◌, ◌≤ℤ◌, loop_values, eq_of_parts, +ℤ_parts,
}
use mathlib.Core.HLevel.{×_prop}
use mathlib.Core.List.{Memᴰ, Nodup-nil, Nodup-cons}
use mathlib.Core.List.Memᴰ
use mathlib.Core.Logic.{∥∥₁_elim}
use native.Mathlib.Bridge.{le_prop}

-- `n` consecutive integers.
pub offsets : ℤ → ℕ → List ℤ
offsets x zero = []
offsets x (suc n) = x ∷ offsets (x +ℤ pos 1) n

-- With more fuel than rounds the loop runs until its test fails.
pub loop_values-offsets :
    (fuel n : ℕ) (x end : ℤ) → n < fuel → end ≡ x +ℤ pos n → loop_values fuel x end ≡ offsets x n
unfolding loop_values offsets
loop_values-offsets zero n x end h e = absurd (omega arith)
loop_values-offsets (suc fuel) zero x end h e = ground (arith, +ℤ_parts x (pos 0))
loop_values-offsets (suc fuel) (suc n) x end h e = ground (
  arith,
  +ℤ_parts x (pos (suc n)),
  loop_values-offsets fuel n (x +ℤ pos 1) end,
  +ℤ_parts x (pos 1),
  +ℤ_parts (x +ℤ pos 1) (pos n),
  eq_of_parts end (x +ℤ pos 1 +ℤ pos n),
)

pub length-offsets : (x : ℤ) (n : ℕ) → length (offsets x n) ≡ n
unfolding offsets
length-offsets x zero = refl
length-offsets x (suc n) = ap suc (length-offsets (x +ℤ pos 1) n)

-- `c` is one of the `n` integers from `x` on.
abbrev pub Within : ℤ → ℕ → ℤ → Type 0
Within x n c = (x ≤ℤ c) × (pos_part c + neg_part x < pos_part x + neg_part c + n)

offsets-Within : (x : ℤ) (n : ℕ) {c : ℤ} → Memᴰ c (offsets x n) → Within x n c
unfolding offsets
offsets-Within x zero m = absurd (Memᴰ.not-nil m)
offsets-Within x (suc n) {c} m = elim (Memᴰ.cases_cons m) [
  | inl e ↦ rw e (omega arith)
  | inr rest ↦ omega (arith, offsets-Within (x +ℤ pos 1) n rest, +ℤ_parts x (pos 1))
]

Within-offsets : (x : ℤ) (n : ℕ) (c : ℤ) → Within x n c → Memᴰ c (offsets x n)
unfolding offsets
Within-offsets x zero c h = absurd (omega arith)
Within-offsets x (suc n) c h = elim (dec_lt (pos_part x + neg_part c) (pos_part c + neg_part x)) [
  | yes after ↦ Memᴰ.tail (Within-offsets (x +ℤ pos 1) n c (omega (arith, +ℤ_parts x (pos 1))))
  | no first ↦ Memᴰ.head (omega (arith, eq_of_parts c x))
]

pub mem-offsets : (x : ℤ) (n : ℕ) (c : ℤ) → Mem c (offsets x n) ↔ Within x n c
mem-offsets x n c = (
  λ m. ∥∥₁_elim m (×_prop le_prop le_prop) (offsets-Within x n),
  λ h. ∣ Within-offsets x n c h ∣₁,
)

pub offsets-Nodup : (x : ℤ) (n : ℕ) → Nodup (offsets x n)
unfolding offsets
offsets-Nodup x zero = Nodup-nil
offsets-Nodup x (suc n) = Nodup-cons.1 (
  λ m. omega (arith, (mem-offsets (x +ℤ pos 1) n x).0 m, +ℤ_parts x (pos 1)),
  offsets-Nodup (x +ℤ pos 1) n,
)
