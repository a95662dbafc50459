-- ===== src/Footprint.antt =====
-- miner-common/include/miner/common/miner.h: what a miner is asked for and what it finds.
use blue_space.Prelude.{ℕ, String}
use blue_space.Prelude.Int.{ℤ}
use blue_space.Int64.{IsInside}

pub record Coordinate : Type 0 where
  pub x : ℤ  -- int64_t
  pub y : ℤ  -- int64_t

pub record PlanetLocation : Type 0 where
  pub coordinate : Coordinate
  pub hash : String

pub record ChunkFootprint : Type 0 where
  pub bottom_left : Coordinate
  pub side_length : ℕ  -- uint32_t

-- The square lies in 64 bits, and so do the end of either loop and the opposites of its coordinates.
abbrev pub IsInsideChunk : ChunkFootprint → Type 0
IsInsideChunk chunk =
    IsInside chunk.bottom_left.x chunk.side_length × IsInside chunk.bottom_left.y chunk.side_length
