-- ===== src/Cuda/Mine/Checked/Calls.antt =====
-- The CUDA calls that a call of the miner makes, and that it is they that decide how it ends.
use blue_space.Prelude.{
  ap, length, ℕ, ◌==◌, ◌≡◌, sym, ◌⊎◌, inl, inr, Bool, true, false, Option, none, some, List, [],
  ◌∷◌, ◌++◌, String, Bool-cases, Option-cases, if◌then◌else◌, subst, All, All-append, append-All,
  ◌↔◌,
}
use blue_space.Outcome.{Outcome, done, dies, exit_failure, ◌>>=◌, ◌>>◌, bind_done, done-injective}
use blue_space.Gmp.{Gmp}
use blue_space.Constants.{mimc_p, mimc_c}
use blue_space.Footprint.{PlanetLocation, ChunkFootprint}
use blue_space.Cuda.Checks.{
  CudaCall, CudaStatus, cuda_check, set_device_of_symbols, memcpy_symbol_p, memcpy_symbol_c,
  cuda_free, set_device_of_cache, cuda_malloc, set_device_of_batch, error_report_alloc,
  device_synchronize, get_last_error, memcpy_batch,
}
use blue_space.Cuda.Checks.Decided.{
  Decides, Decides-done, Decides-iff, Decides-cuda_check, Decides-cgbn_check, Decides-bind,
  Decides-step,
}
use blue_space.Cuda.Cgbn.{Cgbn}
use blue_space.Cuda.Kernel.{Batch, KernelArgs}
use blue_space.Cuda.Grid.{CudaMinerOptions, launch_size}
use blue_space.Cuda.Miner.Limbs.{GmpWords, from_mpz}
use blue_space.Cuda.Miner.Cache.{CachedDeviceMemory, Heaps, Platform, free, allocate, prepare_cache}
use blue_space.Cuda.Miner.Collect.{Device, run_mine_batch}
use blue_space.Cuda.Mine.{
  CudaMiner, or_invalid_free, load_symbols, load_constants, loaded_args, c_size, initialize, mine,
}
use blue_space.Cuda.Mine.Checked.{
  checked_initialize, checked_allocate, checked_prepare_cache, checked_run_mine_batch, checked_mine,
}

-- The first call of a miner loads the constants.
abbrev pub calls_of_initialize : Bool → List CudaCall
calls_of_initialize true = []
calls_of_initialize false = set_device_of_symbols ∷ memcpy_symbol_p ∷ memcpy_symbol_c ∷ []

-- A side that is not that of the call before takes a new buffer, for which the old one is freed.
abbrev pub calls_of_cache : ℕ → Option CachedDeviceMemory → List CudaCall
calls_of_cache side_length none = set_device_of_cache ∷ cuda_malloc ∷ []
calls_of_cache side_length (some cache) =
    if cache.side_length == side_length
    then []
    else cuda_free ∷ set_device_of_cache ∷ cuda_malloc ∷ []

abbrev pub calls_of_batch : List CudaCall
calls_of_batch =
    set_device_of_batch ∷ error_report_alloc ∷ device_synchronize ∷ get_last_error ∷ memcpy_batch
    ∷ []

module _ (cuda : CudaStatus) where
  abbrev Succeed : List CudaCall → Type 0
  Succeed calls = All (λ call. cuda.status call ≡ 0) calls

  abbrev CallsSucceed : Bool → ℕ → Option CachedDeviceMemory → Type 0
  CallsSucceed initialized side_length cache =
      Succeed
        (calls_of_initialize initialized ++ calls_of_cache side_length cache ++ calls_of_batch)
      × (cuda.cgbn_error ≡ false)

  -- Each of the calls has returned cudaSuccess, and the kernel has left no error.
  abbrev pub MineSucceeds : CudaMiner → ℕ → Type 0
  MineSucceeds miner side_length = CallsSucceed miner.initialized side_length miner.cache

  check {ℓ} :
      {A : Type ℓ} {S : Type 0} (call : CudaCall) (a : A) (c : Outcome A)
      → Decides S a c
      → Decides ((cuda.status call ≡ 0) × S) a (cuda_check (cuda.status call) >> c)
  check call a c h = Decides-cuda_check (cuda.status call) a c h

  initialize-Decides :
      (words : GmpWords) (miner ready : CudaMiner)
      → initialize words miner ≡ done ready
      → Decides
          (Succeed (calls_of_initialize miner.initialized))
          ready
          (checked_initialize cuda words miner)
  unfolding initialize checked_initialize
  initialize-Decides words miner ready e = decided miner.initialized e
    where
      decided :
          (initialized : Bool)
          → (if initialized then done miner else load_symbols words miner) ≡ done ready
          → Decides (Succeed (calls_of_initialize initialized)) ready (
              if initialized
              then done miner
              else (load_symbols words miner >>= λ loaded.
                  cuda_check (cuda.status set_device_of_symbols)
                  >> (cuda_check (cuda.status memcpy_symbol_p)
                      >> (cuda_check (cuda.status memcpy_symbol_c) >> done loaded))))
      decided true f = inl (tt, f)
      decided false f =
          rw f (check _ ready _ (check _ ready _ (check _ ready _ (Decides-done ready))))

  allocate-Decides :
      (platform : Platform) (side_length : ℕ) (heaps : Heaps)
      → Decides
          (Succeed (set_device_of_cache ∷ cuda_malloc ∷ []))
          (allocate platform side_length heaps)
          (checked_allocate cuda platform side_length heaps)
  unfolding checked_allocate
  allocate-Decides platform side_length heaps =
      let made = allocate platform side_length heaps in
      check _ made _ (check _ made _ (Decides-done made))

  allocated :
      (calls : List CudaCall) (platform : Platform) (side_length : ℕ) (heaps : Heaps)
      (made : CachedDeviceMemory × Heaps) (c : Outcome (CachedDeviceMemory × Heaps))
      → Decides (Succeed calls) (allocate platform side_length heaps) c
      → done (allocate platform side_length heaps) ≡ done made
      → Decides (Succeed calls) made c
  allocated calls platform side_length heaps made c h e =
      subst (λ m. Decides (Succeed calls) m c) (done-injective e) h

  prepare_cache-Decides :
      (platform : Platform) (side_length : ℕ) (cache : Option CachedDeviceMemory) (heaps : Heaps)
      (made : CachedDeviceMemory × Heaps)
      → or_invalid_free (prepare_cache platform side_length cache heaps) ≡ done made
      → Decides
          (Succeed (calls_of_cache side_length cache))
          made
          (checked_prepare_cache cuda platform side_length cache heaps)
  unfolding prepare_cache checked_prepare_cache or_invalid_free
  prepare_cache-Decides platform side_length none heaps made =
      allocated (set_device_of_cache ∷ cuda_malloc ∷ []) platform side_length heaps made _
        (allocate-Decides platform side_length heaps)
  prepare_cache-Decides platform side_length (some cache) heaps made =
      elim (Bool-cases (cache.side_length == side_length)) [
        | inl same ↦ rw same (λ f. inl (tt, f))
        | inr other ↦ rw other (elim (Option-cases (free cache.h_batch heaps.host)) [
          | inl gone ↦ rw gone (λ f. absurd (cc f))
          | inr (host, at_host) ↦
              rw at_host (elim (Option-cases (free cache.d_batch heaps.device)) [
                | inl gone ↦ rw gone (λ f. absurd (cc f))
                | inr (device, at_device) ↦
                    let left : Heaps = record { host = host; device = device } in
                    rw at_device (
                      allocated (cuda_free ∷ set_device_of_cache ∷ cuda_malloc ∷ []) platform
                        side_length left made _
                        (check _ _ _ (allocate-Decides platform side_length left)))
              ])
        ])
      ]

  -- The error of the kernel is looked at before the batch is copied.
  ordered :
      ((cuda.status set_device_of_batch ≡ 0)
        × ((cuda.status error_report_alloc ≡ 0)
            × ((cuda.status device_synchronize ≡ 0)
                × ((cuda.status get_last_error ≡ 0)
                    × ((cuda.cgbn_error ≡ false) × ((cuda.status memcpy_batch ≡ 0) × Unit {0}))))))
      ↔ (Succeed calls_of_batch × (cuda.cgbn_error ≡ false))
  ordered = (
    λ (d, (r, (s, (l, (no_error, (m, _)))))). ((d, (r, (s, (l, (m, tt))))), no_error),
    λ ((d, (r, (s, (l, (m, _))))), no_error). (d, (r, (s, (l, (no_error, (m, tt)))))),
  )

  run_mine_batch-Decides :
      (get_str : ℕ → String) (b : Cgbn) (device : Device) (options : CudaMinerOptions)
      (a : KernelArgs) (batch : Batch) (result found : List PlanetLocation)
      → run_mine_batch get_str b device options a batch result ≡ done found
      → Decides
          (Succeed calls_of_batch × (cuda.cgbn_error ≡ false))
          found
          (checked_run_mine_batch cuda get_str b device options a batch result)
  unfolding run_mine_batch checked_run_mine_batch
  run_mine_batch-Decides get_str b device options a batch result found e =
      let (size, launched, collected) =
        bind_done (launch_size options a.chunk.side_length) _ found e in
      Decides-iff found _ ordered (
        check _ found _ (
          check _ found _ (
            rw launched (
              check _ found _ (
                check _ found _ (
                  Decides-cgbn_check cuda.cgbn_error found _
                    (check _ found _ (inl (tt, collected)))))))))

  -- `initialize` leaves the cache as it is.
  initialize-cache :
      (words : GmpWords) (miner ready : CudaMiner)
      → initialize words miner ≡ done ready
      → ready.cache ≡ miner.cache
  unfolding initialize load_symbols
  initialize-cache words miner ready e = decided miner.initialized e
    where
      cache_of : CudaMiner → Option CachedDeviceMemory
      cache_of m = m.cache

      loaded : load_symbols words miner ≡ done ready → ready.cache ≡ miner.cache
      loaded = elim (Bool-cases (length mimc_c == c_size)) [
        | inl all ↦ rw all λ f.
            let (p_bn, _, rest) = bind_done (from_mpz words mimc_p) _ ready f in
            let (c_bn, _, last) = bind_done (load_constants words mimc_c) _ ready rest in
            sym (ap cache_of (done-injective last))
        | inr few ↦ rw few (λ f. absurd (cc f))
      ]

      decided :
          (initialized : Bool)
          → (if initialized then done miner else load_symbols words miner) ≡ done ready
          → ready.cache ≡ miner.cache
      decided true f = sym (ap cache_of (done-injective f))
      decided false f = loaded f

  joined :
      (first rest : List CudaCall)
      → (Succeed first
          × (Succeed rest × ((Succeed calls_of_batch × (cuda.cgbn_error ≡ false)) × Unit {0})))
        ↔ (Succeed (first ++ rest ++ calls_of_batch) × (cuda.cgbn_error ≡ false))
  joined first rest = (
    λ (a, (c, ((b, no_error), _))). (
      append-All Succeeds (first ++ rest) calls_of_batch (append-All Succeeds first rest a c) b,
      no_error,
    ),
    λ (all, no_error).
        let (others, b) = All-append Succeeds (first ++ rest) calls_of_batch all in
        let (a, c) = All-append Succeeds first rest others in (a, (c, ((b, no_error), tt))),
  )
    where
      Succeeds : CudaCall → Type 0
      Succeeds call = cuda.status call ≡ 0

  abbrev prepared_with : CudaMiner → CachedDeviceMemory → Heaps → CudaMiner
  prepared_with ready cache heaps = record ready { cache = some cache; heaps = heaps }

  module _ (words : GmpWords) (g : Gmp) (b : Cgbn) (platform : Platform) (device : Device)
      (batch : Batch) (miner : CudaMiner) (chunk : ChunkFootprint) (rarity key : ℕ)
      (result : List PlanetLocation) where
    -- For a call of `mine` that returns where its CUDA calls are taken to succeed: if each of the
    -- calls that it makes returns cudaSuccess and the kernel leaves no error, it returns the same;
    -- and if not, the process exits with a failure. The calls are three that load the constants, the
    -- first time, two that make the buffer where there is none and three where the side has changed,
    -- and five that run the batch.
    pub mine_checked :
        (after : CudaMiner) (found : List PlanetLocation)
        → mine words g b platform device batch miner chunk rarity key result ≡ done (after, found)
        → let ends =
            checked_mine cuda words g b platform device batch miner chunk rarity key result in
          (MineSucceeds miner chunk.side_length × (ends ≡ done (after, found)))
          ⊎ ((¬ MineSucceeds miner chunk.side_length) × (ends ≡ dies exit_failure))
    unfolding mine checked_mine
    mine_checked after found e =
        let (ready, initialized, from_cache) = bind_done (initialize words miner) _ _ e in
        let ((cache, heaps), cached, from_threshold) =
          bind_done
            (or_invalid_free (prepare_cache platform chunk.side_length ready.cache ready.heaps)) _ _
            from_cache in
        let (threshold, divided, from_limbs) =
          bind_done (g.mpz_tdiv_q mimc_p rarity) _ _ from_threshold in
        let (threshold_bn, stored, from_key) =
          bind_done (from_mpz words threshold) _ _ from_limbs in
        let (key_bn, stored_key, from_batch) = bind_done (from_mpz words key) _ _ from_key in
        let prepared = prepared_with ready cache heaps in
        let args = loaded_args words prepared chunk threshold_bn key_bn in
        let (planets, ran, ends) =
          bind_done (run_mine_batch g.get_str b device ready.options args batch result)
            (λ f. done (prepared, f)) (after, found) from_batch in
        let ended =
          Decides-iff (prepared, planets) _
            (joined (calls_of_initialize miner.initialized)
              (calls_of_cache chunk.side_length ready.cache))
            (Decides-bind ready _ _ _ (initialize-Decides words miner ready initialized) (
              Decides-bind (cache, heaps) _ _ _
                (prepare_cache-Decides platform chunk.side_length ready.cache ready.heaps
                  (cache, heaps) cached)
                (Decides-step threshold _ _ _ divided (
                  Decides-step threshold_bn _ _ _ stored (
                    Decides-step key_bn _ _ _ stored_key (
                      Decides-bind planets _ _ _
                        (run_mine_batch-Decides g.get_str b device ready.options args batch result
                          planets ran)
                        (Decides-done (prepared, planets)))))))) in
        let checked_ends =
          checked_mine cuda words g b platform device batch miner chunk rarity key result in
        subst
          (λ c.
            Decides (CallsSucceed miner.initialized chunk.side_length c) (after, found)
              checked_ends)
          (initialize-cache words miner ready initialized)
          (subst
            (λ r.
              Decides (CallsSucceed miner.initialized chunk.side_length ready.cache) r checked_ends)
            (done-injective ends) ended)
