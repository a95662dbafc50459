-- ===== src/Mimc.antt =====
-- What both miners compute, stated with no temporaries: the MiMC permutation, a Feistel network over
-- the field with one round per constant, and the sponge over it that hashes a location.
pub mod Laws
use blue_space.Prelude.{ℕ, ◌+◌, ◌%◌, ◌^◌, List, [], ◌∷◌}

-- The two halves of the permutation's state.
pub record Halves : Type 0 where
  pub l : ℕ
  pub r : ℕ

module _ (p key : ℕ) where
  unfoldable pub feistel_round : Halves → ℕ → Halves
  feistel_round h c = record { l = ((key + h.l + c) ^ 5 + h.r) % p; r = h.l }

  unfoldable pub feistel_rounds : List ℕ → Halves → Halves
  feistel_rounds [] h = h
  feistel_rounds (c ∷ cs) h = feistel_rounds cs (feistel_round h c)

  -- The last round has no constant and does not swap the halves.
  unfoldable pub last_round : Halves → Halves
  last_round h = record { l = h.l; r = ((key + h.l) ^ 5 + h.r) % p }

  unfoldable pub permute : List ℕ → Halves → Halves
  permute cs h = last_round (feistel_rounds cs h)

  -- A number is added to the left half, and the state is permuted.
  unfoldable pub absorb : List ℕ → Halves → ℕ → Halves
  absorb cs h x = permute cs (record { l = (h.l + x) % p; r = h.r })

  unfoldable pub location_hash : List ℕ → ℕ → ℕ → ℕ
  location_hash cs x y = (absorb cs (absorb cs (record { l = 0; r = 0 }) x) y).l
