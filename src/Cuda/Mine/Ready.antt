-- ===== src/Cuda/Mine/Ready.antt =====
-- The miner between calls: its constants are loaded once, and its buffers are those of its cache.
use blue_space.Prelude.{
  ℕ, ◌/◌, ◌^◌, ◌<◌, ◌≡◌, refl, sym, ap, ap₂, ◌∙◌, arith, true, some, List, [], ◌∷◌, map, All,
  All-weaken, inl, inr, Bool-cases,
}
use blue_space.Outcome.{done, dies, division_by_zero, ◌>>=◌}
use blue_space.Gmp.{Gmp}
use blue_space.Constants.{mimc_p, mimc_c, mimc_p_bounds, mimc_c_reduced, length-mimc_c}
use blue_space.Footprint.{PlanetLocation, ChunkFootprint}
use native.Mathlib.Nat.{div-le_self}
use blue_space.Cuda.Cgbn.{Cgbn}
use blue_space.Cuda.Kernel.{Batch}
use blue_space.Cuda.Grid.{CudaMinerOptions}
use blue_space.Cuda.Miner.Limbs.{GmpWords, word_value, from_mpz, to_mpz, to_mpz-from_mpz}
use blue_space.Cuda.Miner.Cache.{CachedDeviceMemory, Platform, IsOwned, prepare_cache-IsCached}
use blue_space.Cuda.Miner.Collect.{Device, run_mine_batch}
use blue_space.Cuda.Agreement.{launch_args}
use blue_space.Cuda.Mine.{
  Symbols, CudaMiner, new_cuda_miner, or_invalid_free, load_constants, load_symbols, initialize,
  loaded_args, mine,
}

-- The constants in device memory are P and C.
abbrev pub IsLoadedWith : Symbols → Type 0
IsLoadedWith s =
    (word_value s.global_mimc_p ≡ mimc_p) × (map (λ c. word_value c) s.global_mimc_c ≡ mimc_c)

pub record IsReady (platform : Platform) (miner : CudaMiner) : Type 0 where
  pub loaded : miner.initialized ≡ true → IsLoadedWith miner.symbols
  pub owned : IsOwned platform miner.cache miner.heaps

pub new_cuda_miner-IsReady :
    (platform : Platform) (device : ℕ) (options : CudaMinerOptions) (symbols : Symbols)
    → IsReady platform (new_cuda_miner device options symbols)
unfolding new_cuda_miner
new_cuda_miner-IsReady platform device options symbols = record {
  loaded = λ e. absurd (cc e);
  owned = (refl, refl);
}

module _ (words : GmpWords) where
  from_mpz_value :
      (s : ℕ)
      → s < 2 ^ 256
      → (limbs : List ℕ) × (from_mpz words s ≡ done limbs) × (word_value limbs ≡ s)
  unfolding to_mpz
  from_mpz_value s h =
      let (limbs, e, _, back) = to_mpz-from_mpz words s h in
      (limbs, e, sym (words.import_value limbs) ∙ back)

  load_constants_lem :
      (cs : List ℕ)
      → All (λ c. c < 2 ^ 256) cs
      → (limbs : List (List ℕ)) × (load_constants words cs ≡ done limbs)
        × (map (λ c. word_value c) limbs ≡ cs)
  unfolding load_constants
  load_constants_lem [] h = ([], refl, refl)
  load_constants_lem (c ∷ cs) h =
      let (first, e, v) = from_mpz_value c h.0 in
      let (rest, f, w) = load_constants_lem cs h.1 in (first ∷ rest, rw (e, f) refl, ap₂ ◌∷◌ v w)

  constants_fit : All (λ c. c < 2 ^ 256) mimc_c
  constants_fit = All-weaken mimc_c (λ c h. omega (arith, mimc_p_bounds)) mimc_c_reduced

  -- `initialize` returns with P and C in device memory, and changes nothing else.
  pub initialize-IsReady :
      (platform : Platform) (miner : CudaMiner)
      → IsReady platform miner
      → (after : CudaMiner) × (initialize words miner ≡ done after)
        × (after.initialized ≡ true)
        × IsLoadedWith after.symbols
        × (after.options ≡ miner.options)
        × (after.cache ≡ miner.cache)
        × (after.heaps ≡ miner.heaps)
  unfolding initialize load_symbols
  initialize-IsReady platform miner v = elim (Bool-cases miner.initialized) [
    | inl e ↦ (miner, rw e refl, e, v.loaded e, refl, refl, refl)
    | inr e ↦
        let (p_bn, ep, vp) = from_mpz_value mimc_p (omega (arith, mimc_p_bounds)) in
        let (c_bn, ec, vc) = load_constants_lem mimc_c constants_fit in
        (
          record miner {
            initialized = true;
            symbols = record { global_mimc_p = p_bn; global_mimc_c = c_bn };
          },
          rw (e, length-mimc_c, ep, ec) refl,
          refl,
          (vp, vc),
          refl,
          refl,
          refl,
        )
  ]

  loaded_args-eq-launch_args :
      (miner : CudaMiner) (chunk : ChunkFootprint) (rarity key : ℕ) (threshold_bn key_bn : List ℕ)
      → IsLoadedWith miner.symbols
      → word_value threshold_bn ≡ mimc_p / rarity
      → word_value key_bn ≡ key
      → loaded_args words miner chunk threshold_bn key_bn
        ≡ launch_args miner.options chunk rarity key
  unfolding loaded_args launch_args
  loaded_args-eq-launch_args miner chunk rarity key threshold_bn key_bn v vt vk =
      rw (vt, vk, v.0, v.1) refl

  threshold_fits : (rarity : ℕ) → mimc_p / rarity < 2 ^ 256
  threshold_fits rarity = omega (arith, div-le_self mimc_p rarity, mimc_p_bounds)

  -- From a miner that is ready, with a rarity that is not 0 and a key of 32 bits, `mine` ends as the
  -- batch does that is run with P, C, P / rarity and the key; where that returns, the miner is ready
  -- again, for chunks of the side that it was asked for.
  pub mine-IsReady :
      (g : Gmp) (b : Cgbn) (platform : Platform) (device : Device) (batch : Batch)
      (miner : CudaMiner) (chunk : ChunkFootprint) (rarity key : ℕ) (result : List PlanetLocation)
      → IsReady platform miner
      → 0 < rarity
      → key < 2 ^ 32
      → (after : CudaMiner) × (mine words g b platform device batch miner chunk rarity key result
          ≡ run_mine_batch g.get_str b device miner.options
              (launch_args miner.options chunk rarity key)
              batch
              result
            >>= λ found. done (after, found))
        × IsReady platform after
        × (after.options ≡ miner.options)
        × ((c : CachedDeviceMemory) × (after.cache ≡ some c) × (c.side_length ≡ chunk.side_length))
  unfolding mine or_invalid_free
  mine-IsReady g b platform device batch miner chunk rarity key result v positive narrow =
      let (ready, ei, init, symbols, same_options, same_cache, same_heaps) =
        initialize-IsReady platform miner v in
      let owned : IsOwned platform ready.cache ready.heaps = rw (same_cache, same_heaps) v.owned in
      let (c, heaps, ep, cached, side, _) =
        prepare_cache-IsCached platform chunk.side_length ready.cache ready.heaps owned in
      let (threshold_bn, et, vt) = from_mpz_value (mimc_p / rarity) (threshold_fits rarity) in
      let (key_bn, ek, vk) = from_mpz_value key (omega arith) in
      let prepared : CudaMiner = record ready { cache = some c; heaps = heaps } in
      (
        prepared,
        rw (ei, ep, g.tdiv_q_law mimc_p rarity positive, et, ek)
            (ap₂
              (λ o a. run_mine_batch g.get_str b device o a batch result >>= λ found.
                done (prepared, found))
              same_options
              (loaded_args-eq-launch_args prepared chunk rarity key threshold_bn key_bn symbols vt
                  vk
                ∙ ap (λ o. launch_args o chunk rarity key) same_options)),
        record { loaded = λ e. symbols; owned = cached },
        same_options,
        (c, refl, side),
      )

  -- With a rarity of 0 it divides by zero, and the process dies.
  pub mine-zero_rarity :
      (g : Gmp) (b : Cgbn) (platform : Platform) (device : Device) (batch : Batch)
      (miner : CudaMiner) (chunk : ChunkFootprint) (key : ℕ) (result : List PlanetLocation)
      → IsReady platform miner
      → mine words g b platform device batch miner chunk 0 key result ≡ dies division_by_zero
  unfolding mine or_invalid_free
  mine-zero_rarity g b platform device batch miner chunk key result v =
      let (ready, ei, init, symbols, same_options, same_cache, same_heaps) =
        initialize-IsReady platform miner v in
      let owned : IsOwned platform ready.cache ready.heaps = rw (same_cache, same_heaps) v.owned in
      let (c, heaps, ep, cached, side, _) =
        prepare_cache-IsCached platform chunk.side_length ready.cache ready.heaps owned in
      rw (ei, ep, g.tdiv_q_zero mimc_p) refl
