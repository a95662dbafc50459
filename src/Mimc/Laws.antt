-- ===== src/Mimc/Laws.antt =====
-- The permutation stays in the field, and is one to one on it.
use blue_space.Prelude.{ℕ, ◌+◌, ◌%◌, ◌^◌, ◌<◌, ◌≡◌, sym, ap, ◌∙◌, List, [], ◌∷◌}
use blue_space.Prelude.Modular.{add-mod_cancel}
use blue_space.Mimc.{
  Halves, feistel_round, feistel_rounds, last_round, permute, absorb, location_hash,
}
use native.Mathlib.Nat.{mod-lt, add-mod-mod}

abbrev pub IsReduced : ℕ → Halves → Type 0
IsReduced p h = (h.l < p) × (h.r < p)

module _ (p key : ℕ) (positive : 0 < p) where
  feistel_round-IsReduced :
      (h : Halves) (c : ℕ) → IsReduced p h → IsReduced p (feistel_round p key h c)
  unfolding feistel_round
  feistel_round-IsReduced h c v = (mod-lt _ positive, v.0)

  feistel_rounds-IsReduced :
      (cs : List ℕ) (h : Halves) → IsReduced p h → IsReduced p (feistel_rounds p key cs h)
  unfolding feistel_rounds
  feistel_rounds-IsReduced [] h v = v
  feistel_rounds-IsReduced (c ∷ cs) h v =
      feistel_rounds-IsReduced cs (feistel_round p key h c) (feistel_round-IsReduced h c v)

  pub permute-IsReduced :
      (cs : List ℕ) (h : Halves) → IsReduced p h → IsReduced p (permute p key cs h)
  unfolding permute last_round
  permute-IsReduced cs h v = ((feistel_rounds-IsReduced cs h v).0, mod-lt _ positive)

  pub absorb-IsReduced :
      (cs : List ℕ) (h : Halves) (x : ℕ) → h.r < p → IsReduced p (absorb p key cs h x)
  unfolding absorb
  absorb-IsReduced cs h x v = permute-IsReduced cs _ (mod-lt _ positive, v)

  pub location_hash-lt : (cs : List ℕ) (x y : ℕ) → location_hash p key cs x y < p
  unfolding location_hash
  location_hash-lt cs x y = (absorb-IsReduced cs _ y (absorb-IsReduced cs _ x positive).1).0

  -- Where the left halves agree, the sum that a round writes fixes the right half.
  right_injective :
      (f : ℕ → ℕ) {k l a b : ℕ} → k ≡ l → a < p → b < p → (f k + a) % p ≡ (f l + b) % p → a ≡ b
  right_injective f {k} {l} {a} {b} e ha hb s =
      add-mod_cancel p (f l) a b ha hb (ap (λ t. (f t + a) % p) (sym e) ∙ s)

  feistel_round_injective :
      (g h : Halves) (c : ℕ)
      → IsReduced p g
      → IsReduced p h
      → feistel_round p key g c ≡ feistel_round p key h c
      → g ≡ h
  unfolding feistel_round
  feistel_round_injective g h c v w e = λ i. record { l = left i; r = right i }
    where
      left : g.l ≡ h.l
      left = ap (λ (s : Halves). s.r) e

      right : g.r ≡ h.r
      right = right_injective (λ t. (key + t + c) ^ 5) left v.1 w.1 (ap (λ (s : Halves). s.l) e)

  last_round_injective :
      (g h : Halves)
      → IsReduced p g
      → IsReduced p h
      → last_round p key g ≡ last_round p key h
      → g ≡ h
  unfolding last_round
  last_round_injective g h v w e = λ i. record { l = left i; r = right i }
    where
      left : g.l ≡ h.l
      left = ap (λ (s : Halves). s.l) e

      right : g.r ≡ h.r
      right = right_injective (λ t. (key + t) ^ 5) left v.1 w.1 (ap (λ (s : Halves). s.r) e)

  feistel_rounds_injective :
      (cs : List ℕ) (g h : Halves)
      → IsReduced p g
      → IsReduced p h
      → feistel_rounds p key cs g ≡ feistel_rounds p key cs h
      → g ≡ h
  unfolding feistel_rounds
  feistel_rounds_injective [] g h v w e = e
  feistel_rounds_injective (c ∷ cs) g h v w e = feistel_round_injective g h c v w (
      feistel_rounds_injective cs (feistel_round p key g c) (feistel_round p key h c)
        (feistel_round-IsReduced g c v) (feistel_round-IsReduced h c w) e)

  -- Whatever the key and the constants, two reduced states that are permuted alike are the same.
  pub permute_injective :
      (cs : List ℕ) (g h : Halves)
      → IsReduced p g
      → IsReduced p h
      → permute p key cs g ≡ permute p key cs h
      → g ≡ h
  unfolding permute
  permute_injective cs g h v w e = feistel_rounds_injective cs g h v w (
      last_round_injective _ _ (feistel_rounds-IsReduced cs g v) (feistel_rounds-IsReduced cs h w)
        e)

  -- So the states after one number tell the number, modulo p.
  pub absorb_injective :
      (cs : List ℕ) (h : Halves) (x y : ℕ)
      → IsReduced p h
      → absorb p key cs h x ≡ absorb p key cs h y
      → x % p ≡ y % p
  unfolding absorb
  absorb_injective cs h x y v e =
      add-mod_cancel p h.l (x % p) (y % p) (mod-lt x positive) (mod-lt y positive) (
        add-mod-mod h.l x p
        ∙ ap (λ (s : Halves). s.l)
            (permute_injective cs _ _ (mod-lt _ positive, v.1) (mod-lt _ positive, v.1) e)
        ∙ sym (add-mod-mod h.l y p))
