-- ===== src/Cuda/Kernel/Cells.antt =====
-- The cells of a square batch, column by column in each row.
use blue_space.Prelude.{ℕ, ◌+◌, ◌*◌, ◌%◌, ◌^◌, ◌<◌, ◌≡◌, sym, ap, ◌∙◌, arith}
use native.Mathlib.Nat.{mod-eq_of_lt, add-mul-mod_self_left, le_of_mul-le-mul_left}

-- Cells of a square are distinct, and lie below its area.
pub cell_injective :
    (n x y x' y' : ℕ) → x < n → x' < n → x + n * y ≡ x' + n * y' → (x ≡ x') × (y ≡ y')
cell_injective n x y x' y' h h' e = (
  same_x,
  omega (
    arith,
    le_of_mul-le-mul_left {m = y} {n = y'} {k = n} (omega (arith, same_x)) (omega arith),
    le_of_mul-le-mul_left {m = y'} {n = y} {k = n} (omega (arith, same_x)) (omega arith),
  ),
)
  where
    same_x : x ≡ x'
    same_x =
        sym (add-mul-mod_self_left x n y ∙ mod-eq_of_lt h)
        ∙ ap (λ t. t % n) e
        ∙ add-mul-mod_self_left x' n y'
        ∙ mod-eq_of_lt h'

pub cell_bound : (n x y : ℕ) → x < n → y < n → x + n * y < n * n
cell_bound n x y hx hy = grind arith

pub area_bound : (n : ℕ) → n < 2 ^ 16 → n * n < 2 ^ 32
area_bound n h = grind arith
