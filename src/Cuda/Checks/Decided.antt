-- ===== src/Cuda/Checks/Decided.antt =====
-- What decides how a chain of calls with their checks ends.
use blue_space.Prelude.{
  ℕ, ◌≡◌, refl, ◌⊎◌, inl, inr, Bool, true, false, ◌==◌, Bool-cases, ==_iff, ◌↔◌,
}
use blue_space.Outcome.{Outcome, done, dies, exit_failure, ◌>>=◌, ◌>>◌}
use blue_space.Cuda.Checks.{cuda_check, cgbn_check}

-- Where `S` holds the outcome is `a`; where it does not, the process exits.
abbrev pub Decides {ℓ} : {A : Type ℓ} → Type 0 → A → Outcome A → Type ℓ
Decides S a c = (S × (c ≡ done a)) ⊎ ((¬ S) × (c ≡ dies exit_failure))

pub Decides-done {ℓ} : {A : Type ℓ} (a : A) → Decides (Unit {0}) a (done a)
Decides-done a = inl (tt, refl)

pub Decides-iff {ℓ} :
    {A : Type ℓ} {S T : Type 0} (a : A) (c : Outcome A) → S ↔ T → Decides S a c → Decides T a c
Decides-iff a c same (inl (s, e)) = inl (same.0 s, e)
Decides-iff a c same (inr (no_s, e)) = inr (λ t. no_s (same.1 t), e)

pub Decides-cuda_check {ℓ} :
    {A : Type ℓ} {S : Type 0} (status : ℕ) (a : A) (c : Outcome A)
    → Decides S a c
    → Decides ((status ≡ 0) × S) a (cuda_check status >> c)
unfolding cuda_check
Decides-cuda_check status a c h = elim (Bool-cases (status == 0)) [
  | inl same ↦ rw same (elim h [
    | inl (s, e) ↦ inl (((==_iff status 0).0 same, s), e)
    | inr (no_s, e) ↦ inr (λ both. no_s both.1, e)
  ])
  | inr other ↦ rw other (inr (λ both. absurd (cc ((==_iff status 0).1 both.0)), refl))
]

pub Decides-cgbn_check {ℓ} :
    {A : Type ℓ} {S : Type 0} (error : Bool) (a : A) (c : Outcome A)
    → Decides S a c
    → Decides ((error ≡ false) × S) a (cgbn_check error >> c)
unfolding cgbn_check
Decides-cgbn_check true a c h = inr (λ both. absurd (cc both.0), refl)
Decides-cgbn_check false a c (inl (s, e)) = inl ((refl, s), e)
Decides-cgbn_check false a c (inr (no_s, e)) = inr (λ both. no_s both.1, e)

pub Decides-bind {ℓ κ} :
    {A : Type ℓ} {B : Type κ} {S T : Type 0} (a : A) (b : B) (c : Outcome A) (k : A → Outcome B)
    → Decides S a c
    → Decides T b (k a)
    → Decides (S × T) b (c >>= k)
Decides-bind a b c k (inl (s, e)) (inl (t, f)) = rw e (inl ((s, t), f))
Decides-bind a b c k (inl (s, e)) (inr (no_t, f)) = rw e (inr (λ both. no_t both.1, f))
Decides-bind a b c k (inr (no_s, e)) h = rw e (inr (λ both. no_s both.0, refl))

-- A part without checks.
pub Decides-step {ℓ κ} :
    {A : Type ℓ} {B : Type κ} {S : Type 0} (a : A) (b : B) (o : Outcome A) (k : A → Outcome B)
    → o ≡ done a
    → Decides S b (k a)
    → Decides S b (o >>= k)
Decides-step a b o k e h = rw e h
