-- ===== src/Cuda/Mine/Checked/Failures.antt =====
-- What a call of the miner comes to, given what the CUDA calls return.
use blue_space.Prelude.{
  ℕ, ◌==◌, ◌≡◌, refl, ◌⊎◌, inl, inr, false, Option, none, some, List, String, Bool-cases,
  Option-cases,
}
use blue_space.Outcome.{Outcome, done, dies, exit_failure, ◌>>◌, bind_done}
use blue_space.Gmp.{Gmp}
use blue_space.Constants.{mimc_p}
use blue_space.Footprint.{PlanetLocation, ChunkFootprint}
use blue_space.Cuda.Checks.{
  CudaCall, CudaStatus, cuda_check, device_synchronize, get_last_error, memcpy_batch,
  cuda_check-done, cgbn_check-done, OrExits, cuda_check-OrExits, cgbn_check-OrExits, bind-OrExits,
  then-OrExits, OrExits-done,
}
use blue_space.Cuda.Cgbn.{Cgbn}
use blue_space.Cuda.Kernel.{Batch, KernelArgs}
use blue_space.Cuda.Grid.{CudaMinerOptions, launch_size}
use blue_space.Cuda.Miner.Limbs.{GmpWords, from_mpz}
use blue_space.Cuda.Miner.Cache.{CachedDeviceMemory, Heaps, Platform, free, allocate, prepare_cache}
use blue_space.Cuda.Miner.Collect.{Device, run_mine_batch}
use blue_space.Cuda.Mine.{CudaMiner, or_invalid_free, load_symbols, initialize, mine}
use blue_space.Cuda.Mine.Checked.{
  checked_initialize, checked_allocate, checked_prepare_cache, checked_run_mine_batch, checked_mine,
}

-- No call fails, and the kernel leaves no error.
pub record AllSucceed (cuda : CudaStatus) : Type 0 where
  pub success : (call : CudaCall) → cuda.status call ≡ 0
  pub no_error : cuda.cgbn_error ≡ false

-- The kernel has run without an error, and the batch has come back.
pub record IsChecked (cuda : CudaStatus) : Type 0 where
  pub synchronized : cuda.status device_synchronize ≡ 0
  pub launched : cuda.status get_last_error ≡ 0
  pub no_error : cuda.cgbn_error ≡ false
  pub copied : cuda.status memcpy_batch ≡ 0

module _ (cuda : CudaStatus) where
  abbrev S : Type 0
  S = AllSucceed cuda

  -- The second outcome is the first one, or it is an exit and some call has failed.
  abbrev Exits {ℓ} : {A : Type ℓ} → Outcome A → Outcome A → Type ℓ
  Exits o c = OrExits S o c

  checks {ℓ} :
      {A : Type ℓ} (call : CudaCall) (o c : Outcome A)
      → Exits o c
      → Exits o (cuda_check (cuda.status call) >> c)
  checks call o c h = cuda_check-OrExits S (cuda.status call) o c (λ s. s.success call) h

  initialize-OrExits :
      (words : GmpWords) (miner : CudaMiner)
      → Exits (initialize words miner) (checked_initialize cuda words miner)
  unfolding initialize checked_initialize load_symbols
  initialize-OrExits words miner = elim (Bool-cases miner.initialized) [
    | inl e ↦ rw e (inl refl)
    | inr e ↦ rw e (
        then-OrExits S (load_symbols words miner) _
          λ loaded. checks _ _ _ (checks _ _ _ (checks _ _ _ (inl refl))))
  ]

  allocate-OrExits :
      (platform : Platform) (side_length : ℕ) (heaps : Heaps)
      → Exits
          (done (allocate platform side_length heaps))
          (checked_allocate cuda platform side_length heaps)
  unfolding checked_allocate
  allocate-OrExits platform side_length heaps = checks _ _ _ (checks _ _ _ (inl refl))

  prepare_cache-OrExits :
      (platform : Platform) (side_length : ℕ) (cache : Option CachedDeviceMemory) (heaps : Heaps)
      → Exits
          (or_invalid_free (prepare_cache platform side_length cache heaps))
          (checked_prepare_cache cuda platform side_length cache heaps)
  unfolding prepare_cache checked_prepare_cache or_invalid_free
  prepare_cache-OrExits platform side_length none heaps =
      allocate-OrExits platform side_length heaps
  prepare_cache-OrExits platform side_length (some cache) heaps =
      elim (Bool-cases (cache.side_length == side_length)) [
        | inl e ↦ rw e (inl refl)
        | inr e ↦ rw e (elim (Option-cases (free cache.h_batch heaps.host)) [
          | inl gone ↦ rw gone (inl refl)
          | inr (host, e_host) ↦ rw e_host (elim (Option-cases (free cache.d_batch heaps.device)) [
            | inl gone ↦ rw gone (inl refl)
            | inr (device, e_device) ↦ rw e_device (
                checks _ _ _
                  (allocate-OrExits platform side_length (record { host = host; device = device })))
          ])
        ])
      ]

  run_mine_batch-OrExits :
      (get_str : ℕ → String) (b : Cgbn) (device : Device) (options : CudaMinerOptions)
      (a : KernelArgs) (batch : Batch) (result : List PlanetLocation)
      → Exits
          (run_mine_batch get_str b device options a batch result)
          (checked_run_mine_batch cuda get_str b device options a batch result)
  unfolding run_mine_batch checked_run_mine_batch
  run_mine_batch-OrExits get_str b device options a batch result = checks _ _ _ (
      checks _ _ _ (
        bind-OrExits S (launch_size options a.chunk.side_length) _ _ _ (inl refl) λ size.
          checks _ _ _ (
            checks _ _ _ (cgbn_check-OrExits S _ _ _ (λ s. s.no_error) (checks _ _ _ (inl refl))))))

  -- The batch of a call that returns has been checked.
  run_mine_batch-IsChecked :
      (get_str : ℕ → String) (b : Cgbn) (device : Device) (options : CudaMinerOptions)
      (a : KernelArgs) (batch : Batch) (result found : List PlanetLocation)
      → checked_run_mine_batch cuda get_str b device options a batch result ≡ done found
      → IsChecked cuda
  unfolding checked_run_mine_batch
  run_mine_batch-IsChecked get_str b device options a batch result found e =
      let (_, after_device) = cuda_check-done _ _ _ e in
      let (_, after_report) = cuda_check-done _ _ _ after_device in
      let (size, _, launched) =
        bind_done (launch_size options a.chunk.side_length) _ _ after_report in
      let (synchronized, after_sync) = cuda_check-done _ _ _ launched in
      let (last, after_last) = cuda_check-done _ _ _ after_sync in
      let (no_error, after_report) = cgbn_check-done _ _ _ after_last in
      let (copied, _) = cuda_check-done _ _ _ after_report in
      record { synchronized = synchronized; launched = last; no_error = no_error; copied = copied }

  module _ (words : GmpWords) (g : Gmp) (b : Cgbn) (platform : Platform) (device : Device)
      (batch : Batch) (miner : CudaMiner) (chunk : ChunkFootprint) (rarity key : ℕ)
      (result : List PlanetLocation) where
    -- Whatever the CUDA calls return: `mine` ends as it does where they are taken to succeed, or the
    -- process exits with a failure, and then some call has failed or the kernel has left an error.
    pub mine_or_exits :
        let ends = mine words g b platform device batch miner chunk rarity key result in
        let checked_ends =
          checked_mine cuda words g b platform device batch miner chunk rarity key result in
        (checked_ends ≡ ends) ⊎ ((checked_ends ≡ dies exit_failure) × ¬ AllSucceed cuda)
    unfolding mine checked_mine
    mine_or_exits =
        bind-OrExits S (initialize words miner) _ _ _ (initialize-OrExits words miner) λ ready.
          bind-OrExits S _ _ _ _
            (prepare_cache-OrExits platform chunk.side_length ready.cache ready.heaps)
            λ prepared. bind-OrExits S (g.mpz_tdiv_q mimc_p rarity) _ _ _ (inl refl) λ threshold.
              bind-OrExits S (from_mpz words threshold) _ _ _ (inl refl) λ threshold_bn.
                bind-OrExits S (from_mpz words key) _ _ _ (inl refl) λ key_bn.
                  bind-OrExits S _ _ _ _
                    (run_mine_batch-OrExits g.get_str b device ready.options _ batch result)
                    λ found. inl refl

    -- Whatever the CUDA calls return: a call that returns has checked that the kernel has run and
    -- that the batch has come back, each without an error, and it leaves the miner and the planets
    -- that it leaves where every call succeeds.
    pub returned-IsChecked :
        (after : CudaMiner) (found : List PlanetLocation)
        → checked_mine cuda words g b platform device batch miner chunk rarity key result
          ≡ done (after, found)
        → IsChecked cuda
          × (mine words g b platform device batch miner chunk rarity key result
              ≡ done (after, found))
    unfolding checked_mine
    returned-IsChecked after found e =
        let (ready, _, from_cache) = bind_done (checked_initialize cuda words miner) _ _ e in
        let (cache, _, from_threshold) =
          bind_done (checked_prepare_cache cuda platform chunk.side_length ready.cache ready.heaps)
            _ _ from_cache in
        let (threshold, _, from_limbs) =
          bind_done (g.mpz_tdiv_q mimc_p rarity) _ _ from_threshold in
        let (threshold_bn, _, from_key) = bind_done (from_mpz words threshold) _ _ from_limbs in
        let (key_bn, _, from_batch) = bind_done (from_mpz words key) _ _ from_key in
        let (planets, ran, _) = bind_done _ _ _ from_batch in
        (
          run_mine_batch-IsChecked g.get_str b device ready.options _ batch result planets ran,
          OrExits-done S _ _ (after, found) mine_or_exits e,
        )
