-- ===== src/Cuda/Hash/Refinement.antt =====
-- The device's sponge computes the permutation of `Mimc` modulo P, on halves up to and including P.
use blue_space.Prelude.{
  ℕ, ◌+◌, ◌%◌, ◌^◌, ◌≤◌, ◌<◌, ◌≡◌, refl, sym, ap, ◌∙◌, List, [], ◌∷◌, All, arith,
}
use blue_space.Prelude.Modular.{pow-mod}
use blue_space.Mimc.{Halves, feistel_round, feistel_rounds, last_round, permute, absorb}
use blue_space.Cuda.Cgbn.{Cgbn}
use blue_space.Cuda.Hash.{
  Sponge, field_add, fifth_power, inject, mix_round, mix_rounds, mix_last, mix,
}
use blue_space.Cuda.Hash.Field.{field_add_lem, fifth_power_lem}
use native.Mathlib.Nat.{mod-add-mod, add-mod-mod, mod-lt}

-- The halves as elements of the field.
abbrev pub residues : ℕ → Sponge → Halves
residues p s = record { l = s.l % p; r = s.r % p }

abbrev pub IsBounded : ℕ → Sponge → Type 0
IsBounded p s = (s.l ≤ p) × (s.r ≤ p)

module _ (b : Cgbn) (p : ℕ) (positive : 0 < p) (small : p + p < 2 ^ 256) (key : ℕ)
    (key_bound : key ≤ p) where
  -- `fifth_power` and the last `field_add` of a round, from a number congruent to k.
  power_add :
      (n k r : ℕ)
      → n ≤ p
      → r ≤ p
      → n % p ≡ k % p
      → let sum = field_add b (fifth_power b n p).0 r p in
        (sum ≤ p) × (sum % p ≡ (k ^ 5 + r % p) % p)
  power_add n k r hn hr e = (added.0, added.1 ∙ same)
    where
      power : (fifth_power b n p).0 ≡ k ^ 5 % p
      power =
          fifth_power_lem b p positive small n hn
          ∙ sym (pow-mod p n 5)
          ∙ ap (λ t. t ^ 5 % p) e
          ∙ pow-mod p k 5

      reduced : (fifth_power b n p).0 ≤ p
      reduced = omega (arith, power, mod-lt (k ^ 5) positive)

      added :
          let sum = field_add b (fifth_power b n p).0 r p in
          (sum ≤ p) × (sum % p ≡ ((fifth_power b n p).0 + r) % p)
      added = field_add_lem b p positive small (fifth_power b n p).0 r reduced hr

      same : ((fifth_power b n p).0 + r) % p ≡ (k ^ 5 + r % p) % p
      same = ap (λ t. (t + r) % p) power ∙ mod-add-mod (k ^ 5) p r ∙ sym (add-mod-mod (k ^ 5) r p)

  add_lem :
      (x y : ℕ) → x ≤ p → y ≤ p → (field_add b x y p ≤ p) × (field_add b x y p % p ≡ (x + y) % p)
  add_lem = field_add_lem b p positive small

  mix_round-residues :
      (s : Sponge) (c : ℕ)
      → IsBounded p s
      → c ≤ p
      → IsBounded p (mix_round b key p s c)
        × (residues p (mix_round b key p s c) ≡ feistel_round p key (residues p s) c)
  unfolding mix_round feistel_round
  mix_round-residues s c v hc = ((sum.0, v.0), λ i. record { l = sum.1 i; r = s.l % p })
    where
      keyed : (field_add b key s.l p ≤ p) × (field_add b key s.l p % p ≡ (key + s.l) % p)
      keyed = add_lem key s.l key_bound v.0

      added :
          let n = field_add b (field_add b key s.l p) c p in
          (n ≤ p) × (n % p ≡ (field_add b key s.l p + c) % p)
      added = add_lem (field_add b key s.l p) c keyed.0 hc

      congruent : field_add b (field_add b key s.l p) c p % p ≡ (key + s.l % p + c) % p
      congruent =
          added.1
          ∙ sym (mod-add-mod (field_add b key s.l p) p c)
          ∙ ap (λ t. (t + c) % p) (keyed.1 ∙ sym (add-mod-mod key s.l p))
          ∙ mod-add-mod (key + s.l % p) p c

      sum :
          let n = field_add b (field_add b key s.l p) c p in
          let total = field_add b (fifth_power b n p).0 s.r p in
          (total ≤ p) × (total % p ≡ ((key + s.l % p + c) ^ 5 + s.r % p) % p)
      sum = power_add _ (key + s.l % p + c) s.r added.0 v.1 congruent

  mix_rounds-residues :
      (cs : List ℕ) (s : Sponge)
      → All (λ c. c ≤ p) cs
      → IsBounded p s
      → IsBounded p (mix_rounds b key p cs s)
        × (residues p (mix_rounds b key p cs s) ≡ feistel_rounds p key cs (residues p s))
  unfolding mix_rounds feistel_rounds
  mix_rounds-residues [] s hs v = (v, refl)
  mix_rounds-residues (c ∷ cs) s hs v =
      let (bounded, same) = mix_round-residues s c v hs.0 in
      let (bounded_all, same_all) = mix_rounds-residues cs (mix_round b key p s c) hs.1 bounded in
      (bounded_all, same_all ∙ ap (feistel_rounds p key cs) same)

  mix_last-residues :
      (s : Sponge)
      → IsBounded p s
      → IsBounded p (mix_last b key p s)
        × (residues p (mix_last b key p s) ≡ last_round p key (residues p s))
  unfolding mix_last last_round
  mix_last-residues s v = ((v.0, sum.0), λ i. record { l = s.l % p; r = sum.1 i })
    where
      keyed : (field_add b key s.l p ≤ p) × (field_add b key s.l p % p ≡ (key + s.l) % p)
      keyed = add_lem key s.l key_bound v.0

      sum :
          let total = field_add b (fifth_power b (field_add b key s.l p) p).0 s.r p in
          (total ≤ p) × (total % p ≡ ((key + s.l % p) ^ 5 + s.r % p) % p)
      sum =
          power_add (field_add b key s.l p) (key + s.l % p) s.r keyed.0 v.1
            (keyed.1 ∙ sym (add-mod-mod key s.l p))

  -- For a modulus below 2 ^ 255, and a key, constants, a number and halves up to the modulus:
  -- `inject` and then `mix` on the device leave halves up to the modulus, and modulo it they are those
  -- of the specification's sponge after it absorbs the number.
  pub mix-inject-residues :
      (cs : List ℕ) (s : Sponge) (x : ℕ)
      → All (λ c. c ≤ p) cs
      → IsBounded p s
      → x ≤ p
      → let s' = mix b key cs p (inject b s x p) in
        IsBounded p s' × (residues p s' ≡ absorb p key cs (residues p s) x)
  unfolding mix inject absorb permute
  mix-inject-residues cs s x hs v hx = (last.0, last.1 ∙ ap (last_round p key) (rounds.1 ∙ start))
    where
      injected : (field_add b s.l x p ≤ p) × (field_add b s.l x p % p ≡ (s.l + x) % p)
      injected = add_lem s.l x v.0 hx

      start :
          feistel_rounds p key cs (residues p (record s { l = field_add b s.l x p }))
          ≡ feistel_rounds p key cs (record { l = (s.l % p + x) % p; r = s.r % p })
      start =
          ap (λ l. feistel_rounds p key cs (record { l = l; r = s.r % p }))
            (injected.1 ∙ sym (mod-add-mod s.l p x))

      rounds :
          let s' = mix_rounds b key p cs (record s { l = field_add b s.l x p }) in
          IsBounded p s'
          × (residues p s'
              ≡ feistel_rounds p key cs (residues p (record s { l = field_add b s.l x p })))
      rounds = mix_rounds-residues cs _ hs (injected.0, v.1)

      last :
          let s' = mix_rounds b key p cs (record s { l = field_add b s.l x p }) in
          IsBounded p (mix_last b key p s')
          × (residues p (mix_last b key p s') ≡ last_round p key (residues p s'))
      last = mix_last-residues _ rounds.0
