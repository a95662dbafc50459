-- ===== src/Cuda/Miner/Cache.antt =====
-- `CudaMiner::prepare_cache`: the buffer in host memory and the one in device memory that the miner
-- keeps for chunks of one side. Only the miner's own blocks are in the heaps.
use blue_space.Prelude.{
  ℕ, ◌*◌, ◌%◌, ◌^◌, ◌≡◌, refl, ap, Option, none, some, List, [], ◌∷◌, inl, inr, ◌==◌, false,
  if◌then◌else◌, Bool-cases, ==_iff,
}
use blue_space.Cuda.Miner.Memory.{batch_size}

pub record CachedDeviceMemory : Type 0 where
  pub side_length : ℕ
  pub bytes_size : ℕ
  pub d_batch : ℕ  -- an address
  pub h_batch : ℕ

pub record Block : Type 0 where
  pub address : ℕ
  pub size : ℕ

pub record Heaps : Type 0 where
  pub host : List Block
  pub device : List Block

-- Where the next block is placed, and the size of a CudaWorkItem.
pub record Platform : Type 0 where
  pub malloc : Heaps → ℕ
  pub cuda_malloc : Heaps → ℕ
  pub item_bytes : ℕ

-- To free a block that is not there is undefined behaviour.
unfoldable pub free : ℕ → List Block → Option (List Block)
free p [] = none
free p (b ∷ bs) =
    let rest = free p bs in
    if b.address == p then some bs else elim rest [ none ↦ none | some cs ↦ some (b ∷ cs) ]

module _ (m : Platform) where
  unfoldable pub bytes_for : ℕ → ℕ
  bytes_for side_length = m.item_bytes * batch_size side_length % 2 ^ 64

  -- From the computation of the sizes on.
  unfoldable pub allocate : ℕ → Heaps → CachedDeviceMemory × Heaps
  allocate side_length heaps =
      let bytes = bytes_for side_length in
      let h_batch = m.malloc heaps in
      let d_batch = m.cuda_malloc heaps in
      (
        record {
          side_length = side_length;
          bytes_size = bytes;
          d_batch = d_batch;
          h_batch = h_batch;
        },
        record {
          host = record { address = h_batch; size = bytes } ∷ heaps.host;
          device = record { address = d_batch; size = bytes } ∷ heaps.device;
        },
      )

  -- The cache and the heaps that it leaves; `none` where a block is freed that is not there.
  unfoldable pub prepare_cache :
      ℕ → Option CachedDeviceMemory → Heaps → Option (CachedDeviceMemory × Heaps)
  prepare_cache side_length none heaps = some (allocate side_length heaps)
  prepare_cache side_length (some cache) heaps =
      if cache.side_length == side_length
      then some (cache, heaps)
      else elim (free cache.h_batch heaps.host) [
        | none ↦ none
        | some host ↦ elim (free cache.d_batch heaps.device) [
          | none ↦ none
          | some device ↦ some (allocate side_length (record { host = host; device = device }))
        ]
      ]

  -- The miner's blocks are those of its cache, at the size that its side asks for.
  pub record IsCached (c : CachedDeviceMemory) (heaps : Heaps) : Type 0 where
    pub bytes : c.bytes_size ≡ bytes_for c.side_length
    pub one_host : heaps.host ≡ record { address = c.h_batch; size = c.bytes_size } ∷ []
    pub one_device : heaps.device ≡ record { address = c.d_batch; size = c.bytes_size } ∷ []

  abbrev pub IsOwned : Option CachedDeviceMemory → Heaps → Type 0
  IsOwned none heaps = (heaps.host ≡ []) × (heaps.device ≡ [])
  IsOwned (some c) heaps = IsCached c heaps

  allocate-IsCached :
      (side_length : ℕ) (heaps : Heaps)
      → heaps.host ≡ []
      → heaps.device ≡ []
      → IsCached (allocate side_length heaps).0 (allocate side_length heaps).1
  unfolding allocate
  allocate-IsCached side_length heaps h d = record {
    bytes = refl;
    one_host = ap (λ bs. record { address = m.malloc heaps; size = bytes_for side_length } ∷ bs) h;
    one_device =
        ap (λ bs. record { address = m.cuda_malloc heaps; size = bytes_for side_length } ∷ bs) d;
  }

  free_only : (p n : ℕ) → free p (record { address = p; size = n } ∷ []) ≡ some []
  unfolding free
  free_only p n = rw ((==_iff p p).1 refl) refl

  kept :
      (side_length : ℕ) (c : CachedDeviceMemory) (heaps : Heaps)
      → c.side_length ≡ side_length
      → prepare_cache side_length (some c) heaps ≡ some (c, heaps)
  unfolding prepare_cache
  kept side_length c heaps e = rw ((==_iff c.side_length side_length).1 e) refl

  allocate-side :
      (side_length : ℕ) (heaps : Heaps) → (allocate side_length heaps).0.side_length ≡ side_length
  unfolding allocate
  allocate-side side_length heaps = refl

  replaced :
      (side_length : ℕ) (c : CachedDeviceMemory) (heaps : Heaps)
      → IsCached c heaps
      → (c.side_length == side_length) ≡ false
      → prepare_cache side_length (some c) heaps
        ≡ some (allocate side_length (record { host = []; device = [] }))
  unfolding prepare_cache
  replaced side_length c heaps v e =
      rw
        (
          e,
          v.one_host,
          free_only c.h_batch c.bytes_size,
          v.one_device,
          free_only c.d_batch c.bytes_size,
        )
        refl

  first :
      (side_length : ℕ) (heaps : Heaps)
      → prepare_cache side_length none heaps ≡ some (allocate side_length heaps)
  unfolding prepare_cache
  first side_length heaps = refl

  allocated :
      (side_length : ℕ) (cache : Option CachedDeviceMemory) (heaps freed : Heaps)
      → freed.host ≡ []
      → freed.device ≡ []
      → prepare_cache side_length cache heaps ≡ some (allocate side_length freed)
      → (c : CachedDeviceMemory) × (after : Heaps) × (prepare_cache side_length cache heaps
          ≡ some (c, after))
        × IsCached c after
        × (c.side_length ≡ side_length)
        × (prepare_cache side_length (some c) after ≡ some (c, after))
  allocated side_length cache heaps freed h d e =
      let c = (allocate side_length freed).0 in
      let after = (allocate side_length freed).1 in
      let same = allocate-side side_length freed in
      (c, after, e, allocate-IsCached side_length freed h d, same, kept side_length c after same)

  -- From a miner whose blocks are those of its cache, if it has one, no block is freed that is not
  -- there, and afterwards its blocks are those of its cache again, one in either memory, of the
  -- size for the side that was asked for. To ask for that side once more changes nothing.
  pub prepare_cache-IsCached :
      (side_length : ℕ) (cache : Option CachedDeviceMemory) (heaps : Heaps)
      → IsOwned cache heaps
      → (c : CachedDeviceMemory) × (after : Heaps) × (prepare_cache side_length cache heaps
          ≡ some (c, after))
        × IsCached c after
        × (c.side_length ≡ side_length)
        × (prepare_cache side_length (some c) after ≡ some (c, after))
  prepare_cache-IsCached side_length none heaps v =
      allocated side_length none heaps heaps v.0 v.1 (first side_length heaps)
  prepare_cache-IsCached side_length (some c) heaps v =
      elim (Bool-cases (c.side_length == side_length)) [
        | inl e ↦
            let same = (==_iff c.side_length side_length).0 e in
            (c, heaps, kept side_length c heaps same, v, same, kept side_length c heaps same)
        | inr e ↦
            allocated side_length (some c) heaps (record { host = []; device = [] }) refl refl
              (replaced side_length c heaps v e)
      ]
