-- ===== src/Tests/Models.antt =====
-- Instances of the libraries' interfaces, on which the model runs.
use Prim.Native.Char.{Char}
use Prim.Native.String.{String}
use blue_space.Prelude.{
  ℕ, zero, suc, ◌+◌, ◌-◌, ◌*◌, ◌/◌, ◌%◌, ◌^◌, ◌<◌, ◌≡◌, refl, true, false, List, [], ◌∷◌, ◌++◌,
  Perm, ltb, ◌==◌, if◌then◌else◌, arith,
}
use blue_space.Prelude.Int.{ℤ, pos, negsuc, ltb_ℤ}
use blue_space.Outcome.{Outcome, done, dies, division_by_zero}
use blue_space.Gmp.{Gmp}
use blue_space.Cpu.Mine.{OpenMp}
use blue_space.Cuda.Cgbn.{Cgbn}
use mathlib.Core.List.{append-nil}
use mathlib.Core.List.Perm

abbrev digit : ℕ → Char
digit n =
    if n == 0
    then "0"
    else if n == 1
    then "1"
    else if n == 2
    then "2"
    else if n == 3
    then "3"
    else if n == 4
    then "4"
    else if n == 5
    then "5"
    else if n == 6
    then "6"
    else if n == 7
    then "7"
    else if n == 8
    then "8"
    else "9"

abbrev decimal : ℕ → ℕ → String → String
decimal zero n s = s
decimal (suc fuel) n s = elim (ltb n 10) [
  | true ↦ String.◌∷◌ (digit n) s
  | false ↦ decimal fuel (n / 10) (String.◌∷◌ (digit (n % 10)) s)
]

abbrev sign_of : ℕ → ℕ → ℤ
sign_of a b = if ltb a b then negsuc 0 else pos (a - b)

pub sign_of_lt : (a b : ℕ) → ltb_ℤ (sign_of a b) (pos 0) ≡ ltb a b
sign_of_lt a b = ground arith

pub sign_of_gt : (a b : ℕ) → ltb_ℤ (pos 0) (sign_of a b) ≡ ltb b a
sign_of_gt a b = ground arith

abbrev divide : ℕ → ℕ → Outcome ℕ
divide n zero = dies division_by_zero
divide n (suc d) = done (n / suc d)

pub divide_pos : (n d : ℕ) → 0 < d → divide n d ≡ done (n / d)
divide_pos n zero h = absurd (omega arith)
divide_pos n (suc d) h = refl

abbrev pub gmp : Gmp
gmp = record {
  mpz_add = λ a b. a + b;
  mpz_sub_ui = λ a b. a - b;
  mpz_tdiv_r = λ n d. n % d;
  mpz_tdiv_q = divide;
  mpz_powm_ui = λ b e m. b ^ e % m;
  mpz_cmp = sign_of;
  get_str = λ n. decimal 200 n "";
  add_law = λ a b. refl;
  sub_ui_law = λ a b h. refl;
  tdiv_r_law = λ n d h. refl;
  tdiv_q_law = divide_pos;
  tdiv_q_zero = λ n. refl;
  powm_ui_law = λ b e m h. refl;
  cmp_law = sign_of_lt;
}

abbrev pub cgbn : Cgbn
cgbn = record {
  add = λ a b. (a + b) % 2 ^ 256;
  sub = λ a b. (a + 2 ^ 256 - b) % 2 ^ 256;
  compare = sign_of;
  mul_wide = λ a b. a * b;
  rem_wide = λ w d. w % d;
  add_law = λ a b. refl;
  sub_law = λ a b h k. refl;
  compare_gt = sign_of_gt;
  compare_lt = sign_of_lt;
  mul_wide_law = λ a b h k. refl;
  rem_wide_law = λ w d h k. refl;
}

pub one_share : (xs : List ℤ) → Perm (xs ++ []) xs
one_share xs = rw append-nil (Perm.refl xs)

-- A team of one thread.
abbrev pub one_thread : OpenMp
one_thread = record { share = λ n xs. xs ∷ []; share_law = λ n xs. one_share xs }
