-- ===== src/Cpu/Mine/Planets.antt =====
-- What a worker pushes, against the hash of `Mimc` at each location.
use blue_space.Prelude.{
  ℕ, ◌≡◌, refl, sym, ap, ◌∙◌, ◌⊎◌, inl, inr, Bool, some, List, [], ◌∷◌, ◌++◌, subst, ltb,
  if◌then◌else◌,
}
use blue_space.Prelude.Int.{ℤ, pos, ltb_ℤ}
use blue_space.Gmp.{Gmp}
use blue_space.Constants.{mimc_p, mimc_c}
use blue_space.Footprint.{PlanetLocation}
use blue_space.Mimc.{Halves, absorb, location_hash}
use blue_space.Cpu.Hash.{
  Sponge, reset, save, restore, result, wrap_coordinate, inject, mix_round, mix_rounds, mix_last,
  mix, is_planet,
}
use blue_space.Cpu.Hash.Refinement.{mix-inject}
use blue_space.Cpu.Mine.{Worker, Job, coordinates, start_column, visit, advance}
use blue_space.Cpu.Mine.Invariants.{worker}
use mathlib.Core.List.{append_assoc}
use mathlib.Core.Option.{some-injective}

abbrev pub empty_halves : Halves
empty_halves = record { l = 0; r = 0 }

abbrev pub snapshot : Sponge → Halves
snapshot s = record { l = s.snap_l; r = s.snap_r }

module _ (g : Gmp) where
  -- The MiMC hash of a location.
  abbrev pub hash_at : ℕ → ℤ → ℤ → ℕ
  hash_at key x y = location_hash mimc_p key mimc_c (wrap_coordinate g x) (wrap_coordinate g y)

  -- The planet at a location, if its hash is below the threshold.
  unfoldable pub planet_at : Job → ℤ → ℤ → List PlanetLocation
  planet_at job x y =
      if ltb (hash_at job.key x y) job.threshold
      then record { coordinate = record { x = x; y = y }; hash = g.get_str (hash_at job.key x y) }
        ∷ []
      else []

  unfoldable pub column_planets : Job → ℤ → List ℤ → List PlanetLocation
  column_planets job x [] = []
  column_planets job x (y ∷ ys) = planet_at job x y ++ column_planets job x ys

  -- The planets of whole columns.
  unfoldable pub columns_planets : Job → List ℤ → List PlanetLocation
  columns_planets job [] = []
  columns_planets job (x ∷ xs) =
      column_planets job x (coordinates job.chunk.bottom_left.y job.chunk.side_length)
      ++ columns_planets job xs

  -- What is still to be pushed by a worker.
  abbrev pub pending : Job → Worker → List PlanetLocation
  pending job w = column_planets job w.x w.ys ++ columns_planets job w.xs

  pub after_column : ℕ → ℤ → Halves
  after_column key x = absorb mimc_p key mimc_c empty_halves (wrap_coordinate g x)

  -- While a worker has rows to do, its snapshot is the sponge after its x.
  abbrev pub IsReady : Job → Worker → Type 0
  IsReady job w = (w.ys ≡ []) ⊎ (snapshot w.sponge ≡ after_column job.key w.x)

  mix_rounds-snapshot :
      (key : ℕ) (cs : List ℕ) (s : Sponge) → snapshot (mix_rounds g key cs s) ≡ snapshot s
  unfolding mix_rounds mix_round
  mix_rounds-snapshot key [] s = refl
  mix_rounds-snapshot key (c ∷ cs) s = mix_rounds-snapshot key cs (mix_round g key s c)

  mix-snapshot : (key : ℕ) (s : Sponge) → snapshot (mix g key s) ≡ snapshot s
  unfolding mix mix_last
  mix-snapshot key s = mix_rounds-snapshot key mimc_c s

  visit-snapshot : (job : Job) (s : Sponge) (x y : ℤ) → snapshot (visit g job s x y).0 ≡ snapshot s
  unfolding visit restore inject
  visit-snapshot job s x y = mix-snapshot job.key _

  visited_hash :
      (job : Job) (s : Sponge) (x y : ℤ)
      → snapshot s ≡ after_column job.key x
      → result (mix g job.key (inject g (restore s) (wrap_coordinate g y))) ≡ hash_at job.key x y
  unfolding restore result location_hash after_column
  visited_hash job s x y e =
      ap (λ (h : Halves). h.l)
        (mix-inject g job.key (wrap_coordinate g y) (restore s)
          ∙ ap (λ h. absorb mimc_p job.key mimc_c h (wrap_coordinate g y)) e)

  visit-planet_at :
      (job : Job) (s : Sponge) (x y : ℤ)
      → snapshot s ≡ after_column job.key x
      → (visit g job s x y).1 ≡ planet_at job x y
  unfolding visit planet_at is_planet
  visit-planet_at job s x y e =
      ap (λ h. pushed h (ltb_ℤ (g.mpz_cmp h job.threshold) (pos 0))) (visited_hash job s x y e)
      ∙ ap (pushed (hash_at job.key x y)) (g.cmp_law (hash_at job.key x y) job.threshold)
    where
      pushed : ℕ → Bool → List PlanetLocation
      pushed h below =
          if below
          then record { coordinate = record { x = x; y = y }; hash = g.get_str h } ∷ []
          else []

  start_column-snapshot :
      (job : Job) (w : Worker) (x : ℤ) (xs : List ℤ)
      → snapshot (start_column g job w x xs).sponge ≡ after_column job.key x
  unfolding start_column save reset after_column
  start_column-snapshot job w x xs = mix-inject g job.key (wrap_coordinate g x) (reset w.sponge)

  -- A step leaves the worker ready, and pushes what it takes from the planets to come.
  abbrev pub Advanced : Job → Worker → Worker × List PlanetLocation → Type 0
  Advanced job w (w', found) = IsReady job w' × (found ++ pending job w' ≡ pending job w)

  row_Advanced :
      (job : Job) (s : Sponge) (x y : ℤ) (ys xs : List ℤ)
      → snapshot s ≡ after_column job.key x
      → let (s', found) = visit g job s x y in
        Advanced job (worker s x (y ∷ ys) xs) (worker s' x ys xs, found)
  unfolding column_planets
  row_Advanced job s x y ys xs e = (
    inr (visit-snapshot job s x y ∙ e),
    sym (append_assoc (visit g job s x y).1 (column_planets job x ys) (columns_planets job xs))
        ∙ ap (λ f. (f ++ column_planets job x ys) ++ columns_planets job xs)
            (visit-planet_at job s x y e),
  )

  column_Advanced :
      (job : Job) (s : Sponge) (x x' : ℤ) (xs : List ℤ)
      → let w : Worker = worker s x [] (x' ∷ xs) in Advanced job w (start_column g job w x' xs, [])
  unfolding start_column columns_planets column_planets
  column_Advanced job s x x' xs =
      (inr (start_column-snapshot job (worker s x [] (x' ∷ xs)) x' xs), refl)

  pub worker-Advanced :
      (job : Job) (s : Sponge) (x : ℤ) (ys xs : List ℤ) (r : Worker × List PlanetLocation)
      → let w : Worker = worker s x ys xs in
        IsReady job w → advance g job w ≡ some r → Advanced job w r
  unfolding advance
  worker-Advanced job s x [] [] r ready e = cc
  worker-Advanced job s x [] (x' ∷ xs) r ready e =
      subst (Advanced job (worker s x [] (x' ∷ xs))) (some-injective _ _ e)
        (column_Advanced job s x x' xs)
  worker-Advanced job s x (y ∷ ys) xs r (inl none_left) e = cc
  worker-Advanced job s x (y ∷ ys) xs r (inr on) e =
      subst (Advanced job (worker s x (y ∷ ys) xs)) (some-injective _ _ e)
        (row_Advanced job s x y ys xs on)
