-- ===== src/Tests/DeviceModel.antt =====
-- A device that runs the threads of a launch in the order of their places.
use blue_space.Prelude.{
  ℕ, zero, suc, ◌<◌, ◌≡◌, refl, sym, arith, List, [], ◌∷◌, ◌++◌, inl, inr, dec_lt, subst,
}
use blue_space.Cuda.Hash.{Sponge}
use blue_space.Cuda.Kernel.{ThreadIdx}
use blue_space.Cuda.Grid.{LaunchSize, InLaunch}
use blue_space.Cuda.Miner.Collect.{Device}
use mathlib.Core.List.{Memᴰ}
use mathlib.Core.List.Memᴰ

-- f 0 and so on, up to f (n - 1).
abbrev upto : {A : Type 0} → ℕ → (ℕ → List A) → List A
upto zero f = []
upto (suc n) f = upto n f ++ f n

upto-mem :
    {A : Type 0} (n k : ℕ) (f : ℕ → List A) (a : A) → k < n → Memᴰ a (f k) → Memᴰ a (upto n f)
upto-mem zero k f a h m = absurd (omega arith)
upto-mem (suc n) k f a h m = elim (dec_lt k n) [
  | yes earlier ↦ Memᴰ.append_left (f n) (upto-mem n k f a earlier m)
  | no last ↦
      let same : k ≡ n = omega arith in
      Memᴰ.append_right (upto n f) (subst (λ i. Memᴰ a (f i)) same m)
]

mem-upto :
    {A : Type 0} (n : ℕ) (f : ℕ → List A) (a : A)
    → Memᴰ a (upto n f)
    → (k : ℕ) × (k < n) × Memᴰ a (f k)
mem-upto zero f a m = absurd (Memᴰ.not-nil m)
mem-upto (suc n) f a m = elim (Memᴰ.append_cases (upto n f) m) [
  | inl earlier ↦ let (k, h, found) = mem-upto n f a earlier in (k, omega arith, found)
  | inr last ↦ (n, omega arith, last)
]

abbrev blank : Sponge
blank = record { l = 0; r = 0; snap_l = 0; snap_r = 0; t0 = 0; t1 = 0; t2 = 0; t3 = 0; t4 = 0 }

abbrev thread_at : ℕ → ℕ → ℕ → Sponge × ThreadIdx
thread_at x y t = (blank, record { block_x = x; block_y = y; thread_x = t })

abbrev in_order : LaunchSize → List (Sponge × ThreadIdx)
in_order size =
    upto size.grid_x λ x. upto size.grid_y λ y. upto size.block_x λ t. thread_at x y t ∷ []

pub in_order_all :
    (size : LaunchSize) (t : ThreadIdx)
    → InLaunch size t
    → (registers : Sponge) × Memᴰ (registers, t) (in_order size)
in_order_all size t v = (
  blank,
  upto-mem size.grid_x t.block_x _ (blank, t) v.in_grid_x
      (upto-mem size.grid_y t.block_y _ (blank, t) v.in_grid_y
        (upto-mem size.block_x t.thread_x _ (blank, t) v.in_block (Memᴰ.head refl))),
)

pub in_order_else :
    (size : LaunchSize) (u : Sponge × ThreadIdx) → Memᴰ u (in_order size) → InLaunch size u.1
in_order_else size u m =
    let (x, hx, mx) = mem-upto size.grid_x _ u m in
    let (y, hy, my) = mem-upto size.grid_y _ u mx in
    let (t, ht, mt) = mem-upto size.block_x _ u my in
    subst (λ (w : Sponge × ThreadIdx). InLaunch size w.1) (sym (Memᴰ.eq_of_singleton mt))
      (record { in_grid_x = hx; in_grid_y = hy; in_block = ht })

abbrev pub device : Device
device = record { schedule = in_order; all_run = in_order_all; none_else = in_order_else }
