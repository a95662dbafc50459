-- ===== src/Cuda/Checks.antt =====
-- miner-cuda/lib/cu_helpers.h: a call of the CUDA run-time or of CGBN that fails ends the process.
pub mod Decided
use blue_space.Prelude.{
  ℕ, ◌≡◌, refl, ◌⊎◌, inl, inr, Bool, true, false, ◌==◌, if◌then◌else◌, Bool-cases, ==_iff, subst,
  sym, ◌∙◌,
}
use blue_space.Outcome.{Outcome, done, throws, dies, exit_failure, ◌>>=◌, ◌>>◌}

-- The calls that miner-cuda/lib/miner.cu checks, in the order of a first call of `mine`.
pub data CudaCall : Type 0 where
  set_device_of_symbols : CudaCall
  memcpy_symbol_p : CudaCall
  memcpy_symbol_c : CudaCall
  cuda_free : CudaCall
  set_device_of_cache : CudaCall
  cuda_malloc : CudaCall
  set_device_of_batch : CudaCall
  error_report_alloc : CudaCall
  device_synchronize : CudaCall
  get_last_error : CudaCall
  memcpy_batch : CudaCall

-- The cudaError_t that each call returns, where 0 is cudaSuccess, and whether the kernel has left an
-- error in the report of CGBN.
pub record CudaStatus : Type 0 where
  pub status : CudaCall → ℕ
  pub cgbn_error : Bool

unfoldable pub cuda_check : ℕ → Outcome (Unit {0})
cuda_check status = if status == 0 then done tt else dies exit_failure

unfoldable pub cgbn_check : Bool → Outcome (Unit {0})
cgbn_check error = if error then dies exit_failure else done tt

-- What follows a check is reached only if the call has succeeded.
pub cuda_check-done {ℓ} :
    {B : Type ℓ} (status : ℕ) (k : Outcome B) (b : B)
    → cuda_check status >> k ≡ done b
    → (status ≡ 0) × (k ≡ done b)
unfolding cuda_check
cuda_check-done {B} status k b e = elim (Bool-cases (status == 0)) [
  | inl same ↦ ((==_iff status 0).0 same, subst after same e)
  | inr other ↦ absurd (undone (subst after other e))
]
  where
    after : Bool → Type ℓ
    after b' = ◌≡◌ {A = Outcome B} ((if b' then done tt else dies exit_failure) >> k) (done b)

    undone : ¬ ◌≡◌ {A = Outcome B} (dies exit_failure) (done b)
    undone f = absurd (cc f)

pub cgbn_check-done {ℓ} :
    {B : Type ℓ} (error : Bool) (k : Outcome B) (b : B)
    → cgbn_check error >> k ≡ done b
    → (error ≡ false) × (k ≡ done b)
unfolding cgbn_check
cgbn_check-done true k b e = absurd (cc e)
cgbn_check-done false k b e = (refl, e)

module _ (S : Type 0) where
  -- The second outcome is the first one, or the process exits, and then `S` does not hold.
  abbrev pub OrExits {ℓ} : {A : Type ℓ} → Outcome A → Outcome A → Type ℓ
  OrExits o c = (c ≡ o) ⊎ ((c ≡ dies exit_failure) × ¬ S)

  pub cuda_check-OrExits {ℓ} :
      {A : Type ℓ} (status : ℕ) (o c : Outcome A)
      → (S → status ≡ 0)
      → OrExits o c
      → OrExits o (cuda_check status >> c)
  unfolding cuda_check
  cuda_check-OrExits status o c success h = elim (Bool-cases (status == 0)) [
    | inl same ↦ rw same h
    | inr other ↦ rw other (inr (refl, λ s. absurd (cc ((==_iff status 0).1 (success s)))))
  ]

  pub cgbn_check-OrExits {ℓ} :
      {A : Type ℓ} (error : Bool) (o c : Outcome A)
      → (S → error ≡ false)
      → OrExits o c
      → OrExits o (cgbn_check error >> c)
  unfolding cgbn_check
  cgbn_check-OrExits true o c success h = inr (refl, λ s. absurd (cc (success s)))
  cgbn_check-OrExits false o c success h = h

  pub bind-OrExits {ℓ κ} :
      {A : Type ℓ} {B : Type κ} (o c : Outcome A) (f k : A → Outcome B)
      → OrExits o c
      → ((a : A) → OrExits (f a) (k a))
      → OrExits (o >>= f) (c >>= k)
  bind-OrExits o c f k (inr (e, fails)) h = rw e (inr (refl, fails))
  bind-OrExits (done a) c f k (inl e) h = rw e (h a)
  bind-OrExits (throws x) c f k (inl e) h = rw e (inl refl)
  bind-OrExits (dies d) c f k (inl e) h = rw e (inl refl)

  -- Checks after the last part of a call.
  pub then-OrExits {ℓ} :
      {A : Type ℓ} (o : Outcome A) (k : A → Outcome A)
      → ((a : A) → OrExits (done a) (k a))
      → OrExits o (o >>= k)
  then-OrExits (done a) k h = h a
  then-OrExits (throws x) k h = inl refl
  then-OrExits (dies d) k h = inl refl

  pub OrExits-done {ℓ} :
      {A : Type ℓ} (o c : Outcome A) (a : A) → OrExits o c → c ≡ done a → o ≡ done a
  OrExits-done o c a (inl same) e = sym same ∙ e
  OrExits-done o c a (inr (exits, _)) e = absurd (exit_returns (sym exits ∙ e))
    where
      exit_returns : ¬ (dies exit_failure ≡ done a)
      exit_returns f = absurd (cc f)
