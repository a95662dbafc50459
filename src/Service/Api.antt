-- ===== src/Service/Api.antt =====
-- blue-space/lib/api/stateless.cpp, and the interface of the miners in
-- miner-common/include/miner/common/miner.h.
use blue_space.Prelude.{ℕ, ◌+◌, ◌%◌, ◌^◌, ◌<◌, ◌≡◌, refl, List, [], arith}
use blue_space.Prelude.Int.{ℤ, pos, negsuc, pos_part, neg_part, to_u32}
use blue_space.Outcome.{Outcome}
use blue_space.Footprint.{PlanetLocation, ChunkFootprint}

-- A miner adds what it finds to the list that it is given.
pub record Miner : Type 0 where
  pub mine : ChunkFootprint → ℕ → ℕ → List PlanetLocation → Outcome (List PlanetLocation)

-- The arguments are int64_t; those of `ChunkFootprint` and `mine` are uint32_t.
unfoldable pub mine_single : Miner → ℤ → ℤ → ℤ → ℤ → ℤ → Outcome (List PlanetLocation)
mine_single miner x y size rarity key =
    let chunk : ChunkFootprint = record {
      bottom_left = record { x = x; y = y };
      side_length = to_u32 size;
    } in
    miner.mine chunk (to_u32 rarity) (to_u32 key) []

-- n is the number below 2 ^ 32 that is congruent to the integer.
abbrev IsLow : ℤ → ℕ → Type 0
IsLow a n = (n < 2 ^ 32) × ((n + neg_part a) % 2 ^ 32 ≡ pos_part a % 2 ^ 32)

to_u32-IsLow : (a : ℤ) → IsLow a (to_u32 a)
unfolding to_u32
to_u32-IsLow (pos n) = omega arith
to_u32-IsLow (negsuc n) = omega arith

IsLow-unique : (a : ℤ) (m n : ℕ) → IsLow a m → IsLow a n → m ≡ n
IsLow-unique a m n v w = omega arith

-- The miner is asked for the numbers below 2 ^ 32 that are congruent to the size, the rarity and the
-- key, whatever the arguments, with an empty list.
mine_single-IsLow :
    (miner : Miner) (x y size rarity key : ℤ) (low_size low_rarity low_key : ℕ)
    → IsLow size low_size
    → IsLow rarity low_rarity
    → IsLow key low_key
    → mine_single miner x y size rarity key
      ≡ miner.mine
          (record { bottom_left = record { x = x; y = y }; side_length = low_size })
          low_rarity
          low_key
          []
unfolding mine_single
mine_single-IsLow miner x y size rarity key low_size low_rarity low_key s r k =
    rw
      (
        IsLow-unique size low_size (to_u32 size) s (to_u32-IsLow size),
        IsLow-unique rarity low_rarity (to_u32 rarity) r (to_u32-IsLow rarity),
        IsLow-unique key low_key (to_u32 key) k (to_u32-IsLow key),
      )
      refl
