-- ===== src/Cuda/Miner/Collected.antt =====
-- What the loop over the batch collects, where every cell of the chunk holds its item.
use blue_space.Prelude.{
  ℕ, ◌+◌, ◌*◌, ◌/◌, ◌%◌, ◌<◌, ◌≡◌, ◌↔◌, ◌≤◌, dec_lt, sym, ap, ap₂, ◌∙◌, arith, true, String, List,
  [], Mem, inl, inr, ltb, lt→ltb, ltb→lt, subst,
}
use blue_space.Prelude.Int.{ℤ, pos, pos_part, neg_part, ◌+ℤ◌, +ℤ_parts}
use blue_space.Footprint.{PlanetLocation}
use blue_space.Cuda.Cgbn.{Cgbn}
use blue_space.Cuda.Kernel.{Batch, KernelArgs}
use blue_space.Cuda.Kernel.Cells.{cell_bound, area_bound}
use blue_space.Cuda.Kernel.Items.{IsLoaded, IsItem, coordinate_x, coordinate_y, hash_at}
use blue_space.Cuda.Miner.Memory.{batch_size}
use blue_space.Cuda.Miner.Collect.{
  item_location, collect, collect-old, collect-new, IsCollected, collect_cases,
}
use mathlib.Core.Logic.{∥∥₁_elim, ∥∥₁_map, ◌∨₁◌}
use mathlib.Core.Logic.Or
use mathlib.Core.List.{Memᴰ}
use mathlib.Core.List.Memᴰ
use native.Mathlib.Nat.{mod-eq_of_lt, mod_self, mod-lt, mod-add-div, div-lt_iff_lt-mul}

add_injective : (a : ℤ) (x y : ℕ) → a +ℤ pos x ≡ a +ℤ pos y → x ≡ y
add_injective a x y e =
    omega (arith, +ℤ_parts a (pos x), +ℤ_parts a (pos y), ap pos_part e, ap neg_part e)

module _ (b : Cgbn) (a : KernelArgs) (loaded : IsLoaded a) (get_str : ℕ → String) where
  open a use {chunk, planet_threshold, mimc_p}

  -- The location in column x and row y, with its hash.
  abbrev pub hash_of : ℕ → ℕ → ℕ
  hash_of x y = hash_at b a loaded (coordinate_x b a loaded x) (coordinate_y b a loaded y)

  abbrev pub location : ℕ → ℕ → PlanetLocation
  location x y = record {
    coordinate = record { x = coordinate_x b a loaded x; y = coordinate_y b a loaded y };
    hash = get_str (hash_of x y);
  }

  pub number-eq : (n h : ℕ) → n ≤ mimc_p → n % mimc_p ≡ h → 0 < h → n ≡ h
  number-eq n h bound e positive = elim (dec_lt n mimc_p) [
    | yes below ↦ sym (mod-eq_of_lt below) ∙ e
    | no above ↦
        let whole : n ≡ mimc_p = omega arith in
        absurd (omega (arith, e, mod_self mimc_p, ap (λ k. k % mimc_p) whole))
  ]

  pub batch_size-eq : batch_size chunk.side_length ≡ chunk.side_length * chunk.side_length
  unfolding batch_size
  batch_size-eq = mod-eq_of_lt (area_bound chunk.side_length loaded.square)

module _ (b : Cgbn) (a : KernelArgs) (loaded : IsLoaded a) (get_str : ℕ → String) (after : Batch)
    (holds : (x y : ℕ)
      → x < a.chunk.side_length
      → y < a.chunk.side_length
      → IsItem b a loaded x y (after (x + a.chunk.side_length * y))) where
  open a use {chunk, planet_threshold, mimc_p}

  -- The cell of a location with a hash other than 0 tells whether it is a planet, and its location.
  cell_lem :
      (x y : ℕ)
      → x < chunk.side_length
      → y < chunk.side_length
      → 0 < hash_of b a loaded get_str x y
      → let item = after (x + chunk.side_length * y) in
        (item.is_planet ≡ ltb (hash_of b a loaded get_str x y) planet_threshold)
        × (item.is_planet ≡ true → item_location get_str item ≡ location b a loaded get_str x y)
  cell_lem x y hx hy positive = (
    v.tested ∙ ap (λ n. ltb n planet_threshold) same,
    λ planet i. record {
      coordinate = record { x = v.at_x i; y = v.at_y i };
      hash = get_str ((v.stored planet ∙ same) i);
    },
  )
    where
      v : IsItem b a loaded x y (after (x + chunk.side_length * y))
      v = holds x y hx hy

      same : v.number ≡ hash_of b a loaded get_str x y
      same =
          number-eq b a loaded get_str v.number (hash_of b a loaded get_str x y) v.bounded
            v.congruent positive

  planet_found :
      (result : List PlanetLocation) (x y : ℕ)
      → x < chunk.side_length
      → y < chunk.side_length
      → 0 < hash_of b a loaded get_str x y
      → hash_of b a loaded get_str x y < planet_threshold
      → Memᴰ
          (location b a loaded get_str x y)
          (collect get_str (batch_size chunk.side_length) 0 after result)
  planet_found result x y hx hy positive rare =
      let (tested, at) = cell_lem x y hx hy positive in
      let planet = tested ∙ lt→ltb (hash_of b a loaded get_str x y) planet_threshold rare in
      subst (λ p. Memᴰ p (collect get_str (batch_size chunk.side_length) 0 after result))
        (at planet)
        (collect-new get_str (batch_size chunk.side_length) 0 after result
          (x + chunk.side_length * y) (omega arith)
          (omega (arith, batch_size-eq b a loaded get_str, cell_bound chunk.side_length x y hx hy))
          planet)

  -- A cell of the batch holds the item of a location of the chunk.
  cell_item :
      (k : ℕ)
      → k < batch_size chunk.side_length
      → (x : ℕ) × (y : ℕ) × (x < chunk.side_length)
        × (y < chunk.side_length)
        × (x + chunk.side_length * y ≡ k)
        × IsItem b a loaded x y (after k)
  cell_item k below = (
    k % chunk.side_length,
    k / chunk.side_length,
    column_bound,
    row_bound,
    split,
    subst (λ n. IsItem b a loaded (k % chunk.side_length) (k / chunk.side_length) (after n)) split
        (holds (k % chunk.side_length) (k / chunk.side_length) column_bound row_bound),
  )
    where
      positive : 0 < chunk.side_length
      positive = elim (dec_lt 0 chunk.side_length) [
        | yes some_side ↦ some_side
        | no none_left ↦
            let no_side : chunk.side_length ≡ 0 = omega arith in
            absurd (omega (arith, batch_size-eq b a loaded get_str, ap (λ n. n * n) no_side))
      ]

      row_bound : k / chunk.side_length < chunk.side_length
      row_bound = (div-lt_iff_lt-mul positive).1 (omega (arith, batch_size-eq b a loaded get_str))

      column_bound : k % chunk.side_length < chunk.side_length
      column_bound = mod-lt k positive

      split : k % chunk.side_length + chunk.side_length * (k / chunk.side_length) ≡ k
      split = mod-add-div k chunk.side_length

  collected_planet :
      (x y : ℕ)
      → x < chunk.side_length
      → y < chunk.side_length
      → 0 < hash_of b a loaded get_str x y
      → IsCollected get_str (batch_size chunk.side_length) 0 after (location b a loaded get_str x y)
      → hash_of b a loaded get_str x y < planet_threshold
  collected_planet x y hx hy positive (k, from, below, planet, e) =
      let (x', y', _, _, split, item) = cell_item k (omega arith) in
      let same_x =
        add_injective chunk.bottom_left.x x x'
          (ap (λ (p : PlanetLocation). p.coordinate.x) e ∙ item.at_x) in
      let same_y =
        add_injective chunk.bottom_left.y y y'
          (ap (λ (p : PlanetLocation). p.coordinate.y) e ∙ item.at_y) in
      let here : k ≡ x + chunk.side_length * y =
        sym split ∙ ap₂ (λ m n. m + chunk.side_length * n) (sym same_x) (sym same_y) in
      ltb→lt (hash_of b a loaded get_str x y) planet_threshold
        (sym (cell_lem x y hx hy positive).0 ∙ ap (λ n. (after n).is_planet) (sym here) ∙ planet)

  -- It is at a location of the chunk, and is that location with its hash unless the hash is 0.
  abbrev pub IsOfChunk : PlanetLocation → Type 0
  IsOfChunk p =
      (x : ℕ) × (y : ℕ) × (x < chunk.side_length)
      × (y < chunk.side_length)
      × (p.coordinate ≡ (location b a loaded get_str x y).coordinate)
      × (0 < hash_of b a loaded get_str x y → p ≡ location b a loaded get_str x y)

  IsCollected-IsOfChunk :
      (p : PlanetLocation)
      → IsCollected get_str (batch_size chunk.side_length) 0 after p
      → IsOfChunk p
  IsCollected-IsOfChunk p (k, from, below, planet, e) =
      let (x, y, hx, hy, split, item) = cell_item k (omega arith) in
      (
        x,
        y,
        hx,
        hy,
        ap (λ (q : PlanetLocation). q.coordinate) e
            ∙ (λ i. record { x = item.at_x i; y = item.at_y i }),
        λ positive.
            e
            ∙ ap (λ n. item_location get_str (after n)) (sym split)
            ∙ (cell_lem x y hx hy positive).1 (ap (λ n. (after n).is_planet) split ∙ planet),
      )

  -- Nothing is collected from elsewhere.
  pub collected-IsOfChunk :
      (p : PlanetLocation)
      → Mem p (collect get_str (batch_size chunk.side_length) 0 after [])
      → ∥ IsOfChunk p ∥₁
  collected-IsOfChunk p m = ∥∥₁_map m λ d.
      elim (collect_cases get_str (batch_size chunk.side_length) 0 after [] p d) [
        | inl old ↦ absurd (Memᴰ.not-nil old)
        | inr new ↦ IsCollected-IsOfChunk p new
      ]

  -- A location of the chunk whose hash is not 0 is collected exactly if its hash is below the
  -- threshold.
  pub collected_iff :
      (result : List PlanetLocation) (x y : ℕ)
      → x < chunk.side_length
      → y < chunk.side_length
      → 0 < hash_of b a loaded get_str x y
      → Mem
          (location b a loaded get_str x y)
          (collect get_str (batch_size chunk.side_length) 0 after result)
        ↔ (Mem (location b a loaded get_str x y) result
            ∨₁ hash_of b a loaded get_str x y < planet_threshold)
  collected_iff result x y hx hy positive = (
    λ m. ∥∥₁_elim m squash₁ λ d.
        elim (collect_cases get_str (batch_size chunk.side_length) 0 after result
          (location b a loaded get_str x y) d) [
            | inl old ↦ Or.inl ∣ old ∣₁
            | inr new ↦ Or.inr (collected_planet x y hx hy positive new)
          ],
    λ h. ∥∥₁_elim h squash₁ λ side. elim side [
      | inl old ↦ ∥∥₁_map old (
          collect-old get_str (batch_size chunk.side_length) 0 after result
            (location b a loaded get_str x y))
      | inr rare ↦ ∣ planet_found result x y hx hy positive rare ∣₁
    ],
  )
