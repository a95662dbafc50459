-- ===== src/Cuda/Mine/Calls.antt =====
-- A miner after any number of calls.
use blue_space.Prelude.{ℕ, zero, suc, ◌^◌, ◌<◌, ◌≡◌, refl, sym, ap, ◌∙◌, arith, List, subst}
use blue_space.Outcome.{Outcome, done, throws, dies, division_by_zero, ◌>>=◌, done-injective}
use blue_space.Gmp.{Gmp}
use blue_space.Footprint.{PlanetLocation, ChunkFootprint}
use blue_space.Cuda.Cgbn.{Cgbn}
use blue_space.Cuda.Kernel.{Batch}
use blue_space.Cuda.Grid.{CudaMinerOptions}
use blue_space.Cuda.Miner.Limbs.{GmpWords}
use blue_space.Cuda.Miner.Cache.{Platform}
use blue_space.Cuda.Miner.Collect.{Device, run_mine_batch}
use blue_space.Cuda.Agreement.{launch_args}
use blue_space.Cuda.Mine.{Symbols, CudaMiner, new_cuda_miner, mine}
use blue_space.Cuda.Mine.Ready.{IsReady, new_cuda_miner-IsReady, mine-IsReady, mine-zero_rarity}

-- The miner that a call leaves.
left_miner :
    (o : Outcome (List PlanetLocation)) (after n : CudaMiner) (found : List PlanetLocation)
    → ◌>>=◌ {B = CudaMiner × List PlanetLocation} o (λ f. done (after, f)) ≡ done (n, found)
    → after ≡ n
left_miner (done f) after n found e = ap (λ r. r.0) (done-injective e)
left_miner (throws x) after n found e = absurd (cc e)
left_miner (dies d) after n found e = absurd (cc e)

module _ (words : GmpWords) (g : Gmp) (b : Cgbn) (platform : Platform) (device : Device) where
  -- The miner after calls that have returned, each with what device memory held then.
  pub data Called (miner : CudaMiner) : CudaMiner → Type 0 where
    none_yet : Called miner miner
    called :
        {m n : CudaMiner}
        → Called miner m
        → (batch : Batch) (chunk : ChunkFootprint) (rarity key : ℕ)
          (result found : List PlanetLocation)
        → key < 2 ^ 32
        → mine words g b platform device batch m chunk rarity key result ≡ done (n, found)
        → Called miner n

  call-IsReady :
      (batch : Batch) (m n : CudaMiner) (chunk : ChunkFootprint) (rarity key : ℕ)
      (result found : List PlanetLocation)
      → IsReady platform m
      → key < 2 ^ 32
      → mine words g b platform device batch m chunk rarity key result ≡ done (n, found)
      → IsReady platform n × (n.options ≡ m.options)
  call-IsReady batch m n chunk zero key result found v narrow e =
      absurd
        (undone (sym (mine-zero_rarity words g b platform device batch m chunk key result v) ∙ e))
    where
      undone :
          ¬ ◌≡◌ {A = Outcome (CudaMiner × List PlanetLocation)}
            (dies division_by_zero)
            (done (n, found))
      undone f = absurd (cc f)
  call-IsReady batch m n chunk (suc rarity) key result found v narrow e =
      let (after, returns, ready, options, _) =
        mine-IsReady words g b platform device batch m chunk (suc rarity) key result v (omega arith)
          narrow in
      let same : after ≡ n =
        left_miner
          (run_mine_batch g.get_str b device m.options
            (launch_args m.options chunk (suc rarity) key) batch result)
          after n found (sym returns ∙ e) in
      (subst (IsReady platform) same ready, sym (ap (λ k. k.options) same) ∙ options)

  pub Called-IsReady :
      (miner m : CudaMiner)
      → IsReady platform miner
      → Called miner m
      → IsReady platform m × (m.options ≡ miner.options)
  Called-IsReady miner m v none_yet = (v, refl)
  Called-IsReady miner n v (called {m} before batch chunk rarity key result found narrow e) =
      let (ready, options) = Called-IsReady miner m v before in
      let (ready_after, same) =
        call-IsReady batch m n chunk rarity key result found ready narrow e in
      (ready_after, same ∙ options)

  -- However many calls of a new miner have returned, whatever they were: the next call, with a
  -- rarity that is not 0 and a key of 32 bits, ends as the launch and the collection do for the
  -- miner's options with P, C, P / rarity and the key, and the miner that it leaves is ready for
  -- further calls, with the same options.
  pub call_as_first :
      (id : ℕ) (options : CudaMinerOptions) (symbols : Symbols) (m : CudaMiner) (batch : Batch)
      (chunk : ChunkFootprint) (rarity key : ℕ) (result : List PlanetLocation)
      → Called (new_cuda_miner id options symbols) m
      → 0 < rarity
      → key < 2 ^ 32
      → (after : CudaMiner) × (mine words g b platform device batch m chunk rarity key result
          ≡ run_mine_batch g.get_str b device options
              (launch_args options chunk rarity key)
              batch
              result
            >>= λ found. done (after, found))
        × IsReady platform after
        × (after.options ≡ options)
  unfolding new_cuda_miner
  call_as_first id options symbols m batch chunk rarity key result calls positive narrow =
      let (ready, same) =
        Called-IsReady (new_cuda_miner id options symbols) m
          (new_cuda_miner-IsReady platform id options symbols) calls in
      let (after, ends, ready_after, kept, _) =
        mine-IsReady words g b platform device batch m chunk rarity key result ready positive
          narrow in
      (
        after,
        ends
            ∙ ap
                (λ o.
                  run_mine_batch g.get_str b device o (launch_args o chunk rarity key) batch result
                  >>= λ found. done (after, found))
                same,
        ready_after,
        kept ∙ same,
      )
