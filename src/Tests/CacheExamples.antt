-- ===== src/Tests/CacheExamples.antt =====
-- The theorem on the miner's buffers, where a chunk of side 16 follows one of side 8.
use blue_space.Prelude.{◌≡◌, refl, some, [], ◌∷◌}
use blue_space.Cuda.Miner.Cache.{
  CachedDeviceMemory, Heaps, Platform, bytes_for, prepare_cache, IsCached, prepare_cache-IsCached,
}

abbrev pub platform : Platform
platform = record { malloc = λ h. 1000; cuda_malloc = λ h. 2000; item_bytes = 56 }

abbrev cached : CachedDeviceMemory
cached = record { side_length = 8; bytes_size = bytes_for platform 8; d_batch = 4; h_batch = 3 }

abbrev heaps : Heaps
heaps = record {
  host = record { address = 3; size = bytes_for platform 8 } ∷ [];
  device = record { address = 4; size = bytes_for platform 8 } ∷ [];
}

prepare_cache-IsCached_example :
    (c : CachedDeviceMemory) × (after : Heaps) × (prepare_cache platform 16 (some cached) heaps
      ≡ some (c, after))
    × IsCached platform c after
    × (c.side_length ≡ 16)
    × (prepare_cache platform 16 (some c) after ≡ some (c, after))
prepare_cache-IsCached_example =
    prepare_cache-IsCached platform 16 (some cached) heaps
      (record { bytes = refl; one_host = refl; one_device = refl })
