-- ===== src/Cuda/Kernel/Items.antt =====
-- What a thread leaves in the batch, one cell at a time.
use blue_space.Prelude.{
  ℕ, ◌+◌, ◌%◌, ◌^◌, ◌≤◌, ◌<◌, ◌≡◌, refl, ap, ◌∙◌, true, List, [], ◌∷◌, All, arith, ltb,
  if◌then◌else◌,
}
use blue_space.Prelude.Int.{ℤ, pos, ◌+ℤ◌, ◌-ℤ◌, to_u32, to_u32_lt}
use blue_space.Mimc.{Halves, absorb, location_hash}
use blue_space.Cuda.Cgbn.{Cgbn}
use blue_space.Cuda.Hash.{
  Sponge, reset, save, restore, result, wrap_coordinate, inject, mix_round, mix_rounds, mix_last,
  mix,
}
use blue_space.Cuda.Hash.Refinement.{residues, IsBounded, mix-inject-residues}
use blue_space.Cuda.Kernel.{
  CudaWorkItem, ThreadIdx, KernelArgs, column_sponge, row_sponge, write_item,
}
use native.Mathlib.Nat.{zero-mod}

-- What the host has loaded, and a square that has no more cells than there are 32-bit indices.
pub record IsLoaded (a : KernelArgs) : Type 0 where
  pub wide : 2 ^ 32 ≤ a.mimc_p
  pub small : a.mimc_p + a.mimc_p < 2 ^ 256
  pub key_bound : a.key ≤ a.mimc_p
  pub constants : All (λ c. c ≤ a.mimc_p) a.mimc_c
  pub square : a.chunk.side_length < 2 ^ 16

-- The halves that `save` has put aside.
abbrev pub saved : Sponge → Halves
saved s = record { l = s.snap_l; r = s.snap_r }

module _ (b : Cgbn) (a : KernelArgs) (loaded : IsLoaded a) where
  open a use {chunk, items_per_thread, planet_threshold, key, mimc_p, mimc_c, tpi}

  abbrev pub coordinate_x : ℕ → ℤ
  coordinate_x x = chunk.bottom_left.x +ℤ pos x

  abbrev pub coordinate_y : ℕ → ℤ
  coordinate_y y = chunk.bottom_left.y +ℤ pos y

  abbrev pub hash_at : ℤ → ℤ → ℕ
  hash_at x y =
      location_hash mimc_p key mimc_c (wrap_coordinate b x mimc_p) (wrap_coordinate b y mimc_p)

  wrap_coordinate-le : (c : ℤ) → wrap_coordinate b c mimc_p ≤ mimc_p
  unfolding wrap_coordinate
  wrap_coordinate-le c = ground (
    arith,
    loaded.wide,
    loaded.small,
    to_u32_lt c,
    to_u32_lt (pos 0 -ℤ c),
    b.sub_law mimc_p (to_u32 (pos 0 -ℤ c)),
  )

  -- The cell of a location that has been visited: its coordinates, the outcome of the test on a
  -- number congruent to its hash, and for a planet that number.
  pub record IsItem (x y : ℕ) (c : CudaWorkItem) : Type 0 where
    pub number : ℕ
    pub at_x : c.x ≡ coordinate_x x
    pub at_y : c.y ≡ coordinate_y y
    pub bounded : number ≤ mimc_p
    pub congruent : number % mimc_p ≡ hash_at (coordinate_x x) (coordinate_y y)
    pub tested : c.is_planet ≡ ltb number planet_threshold
    pub stored : c.is_planet ≡ true → c.hash ≡ number

  -- The saved halves of a thread in column x.
  abbrev pub IsColumn : ℕ → Halves → Type 0
  IsColumn x h =
      (h.l ≤ mimc_p)
      × (h.r ≤ mimc_p)
      × (record { l = h.l % mimc_p; r = h.r % mimc_p }
          ≡ absorb mimc_p key mimc_c (record { l = 0; r = 0 })
              (wrap_coordinate b (coordinate_x x) mimc_p))

  mix_rounds-saved : (p : ℕ) (cs : List ℕ) (s : Sponge) → saved (mix_rounds b key p cs s) ≡ saved s
  unfolding mix_rounds mix_round
  mix_rounds-saved p [] s = refl
  mix_rounds-saved p (c ∷ cs) s = mix_rounds-saved p cs (mix_round b key p s c)

  absorbed :
      (s : Sponge) (c : ℤ)
      → IsBounded mimc_p s
      → let s' = mix b key mimc_c mimc_p (inject b s (wrap_coordinate b c mimc_p) mimc_p) in
        IsBounded mimc_p s'
        × (residues mimc_p s'
            ≡ absorb mimc_p key mimc_c (residues mimc_p s) (wrap_coordinate b c mimc_p))
  absorbed s c v =
      mix-inject-residues b mimc_p (omega (arith, loaded.wide)) loaded.small key loaded.key_bound
        mimc_c s (wrap_coordinate b c mimc_p) loaded.constants v (wrap_coordinate-le c)

  pub column_sponge-IsColumn :
      (registers : Sponge) (t : ThreadIdx)
      → IsColumn t.block_x (saved (column_sponge b a registers t))
  unfolding column_sponge save reset
  column_sponge-IsColumn registers t =
      let (bounded, same) =
        absorbed (reset registers) (coordinate_x t.block_x) (omega arith, omega arith) in
      (
        bounded.0,
        bounded.1,
        same
            ∙ ap
                (λ z.
                  absorb mimc_p key mimc_c (record { l = z; r = z })
                    (wrap_coordinate b (coordinate_x t.block_x) mimc_p))
                (zero-mod mimc_p),
      )

  pub row_sponge-saved : (s : Sponge) (c : ℤ) → saved (row_sponge b a s c) ≡ saved s
  unfolding row_sponge restore inject mix mix_last
  row_sponge-saved s c = mix_rounds-saved mimc_p mimc_c _

  pub row_sponge-result :
      (x : ℕ) (s : Sponge) (c : ℤ)
      → IsColumn x (saved s)
      → let n = result (row_sponge b a s c) in
        (n ≤ mimc_p) × (n % mimc_p ≡ hash_at (coordinate_x x) c)
  unfolding row_sponge restore result location_hash
  row_sponge-result x s c v =
      let (bounded, same) = absorbed (restore s) c (v.0, v.1) in
      (
        bounded.0,
        ap (λ (h : Halves). h.l)
            (same ∙ ap (λ h. absorb mimc_p key mimc_c h (wrap_coordinate b c mimc_p)) v.2),
      )

  pub write_item-IsItem :
      (t : ThreadIdx) (y : ℕ) (n : ℕ) (old : CudaWorkItem)
      → n ≤ mimc_p
      → n % mimc_p ≡ hash_at (coordinate_x t.block_x) (coordinate_y y)
      → IsItem t.block_x y (write_item b a t (coordinate_y y) n old)
  unfolding write_item
  write_item-IsItem t y n old hn e = record {
    number = n;
    at_x = refl;
    at_y = refl;
    bounded = hn;
    congruent = e;
    tested = b.compare_lt n planet_threshold;
    stored = λ h. ap (λ t. if t then n else old.hash) h;
  }
