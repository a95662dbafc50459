-- ===== src/Cpu/Mine/Invariants.antt =====
-- What holds of every worker of a team, and of every location that the team has found.
use blue_space.Prelude.{◌≡◌, sym, some, List, [], ◌∷◌, subst, All, All-append, append-All}
use blue_space.Prelude.Int.{ℤ}
use blue_space.Gmp.{Gmp}
use blue_space.Footprint.{PlanetLocation}
use blue_space.Cpu.Hash.{Sponge}
use blue_space.Cpu.Mine.{Worker, Job, Team, advance, Step, turn, Reach, here, next}

abbrev pub worker : Sponge → ℤ → List ℤ → List ℤ → Worker
worker s x ys xs = record { sponge = s; x = x; ys = ys; xs = xs }

module _ (g : Gmp) (P : Worker → Type 0) (Q : PlanetLocation → Type 0) where
  abbrev AllOfTeam : Team → Type 0
  AllOfTeam t = All P t.workers × All Q t.result

  -- A worker's step keeps `P`, and what it pushes has `Q`.
  abbrev pub IsKept : Job → Type 0
  IsKept job =
      (s : Sponge) (x : ℤ) (ys xs : List ℤ) (r : Worker × List PlanetLocation)
      → P (worker s x ys xs)
      → advance g job (worker s x ys xs) ≡ some r
      → P r.0 × All Q r.1

  Step-All : {job : Job} {s t : Team} → IsKept job → Step g job s t → AllOfTeam s → AllOfTeam t
  Step-All {job} {s} kept (turn before w w' after found e f r) held =
      let (earlier, now) = All-append P before (w ∷ after) (subst (All P) f held.0) in
      let (moved, new) = kept w.sponge w.x w.ys w.xs (w', found) now.0 e in
      subst AllOfTeam (sym r) (
        append-All P before (w' ∷ after) earlier (moved, now.1),
        append-All Q s.result found held.1 new,
      )

  pub Reach-All :
      {job : Job} {s t : Team} → IsKept job → Reach g job s t → AllOfTeam s → AllOfTeam t
  Reach-All kept here held = held
  Reach-All kept (next r st) held = Step-All kept st (Reach-All kept r held)

All-Unit : (ps : List PlanetLocation) → All (λ _. Unit {0}) ps
All-Unit [] = tt
All-Unit (p ∷ ps) = (tt, All-Unit ps)

-- The same for the workers alone.
pub Reach-All_workers :
    (g : Gmp) (P : Worker → Type 0) {job : Job} {s t : Team}
    → ((s : Sponge) (x : ℤ) (ys xs : List ℤ) (r : Worker × List PlanetLocation)
        → P (worker s x ys xs)
        → advance g job (worker s x ys xs) ≡ some r
        → P r.0)
    → Reach g job s t
    → All P s.workers
    → All P t.workers
Reach-All_workers g P {s} kept r held =
    (Reach-All g P (λ _. Unit {0}) (λ w x ys xs r h e. (kept w x ys xs r h e, All-Unit r.1)) r
      (held, All-Unit s.result)).0
