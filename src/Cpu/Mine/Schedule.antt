-- ===== src/Cpu/Mine/Schedule.antt =====
-- The parallel region under every interleaving of the workers' steps.
use blue_space.Prelude.{
  ℕ, suc, ◌≡◌, refl, sym, ap, ◌∙◌, some, List, [], ◌∷◌, ◌++◌, Perm, subst, arith, All, All-append,
  append-All,
}
use blue_space.Prelude.Int.{ℤ, pos, ◌+ℤ◌}
use blue_space.Prelude.Loops.{offsets, loop_values-offsets}
use blue_space.Gmp.{Gmp}
use blue_space.Footprint.{PlanetLocation}
use blue_space.Cpu.Mine.{Worker, Job, Team, coordinates, advance, Step, turn, Reach, here, next}
use blue_space.Cpu.Mine.Planets.{IsReady, pending, worker-Advanced}
use mathlib.Core.List.{append_assoc, perm_append_comm}
use mathlib.Core.List.Perm

pub coordinates-offsets : (x : ℤ) (n : ℕ) → coordinates x n ≡ offsets x n
unfolding coordinates
coordinates-offsets x n = loop_values-offsets (suc n) n x (x +ℤ pos n) (omega arith) refl

pub perm_swap_blocks {ℓ} : {A : Type ℓ} (x y r : List A) → Perm (x ++ (y ++ r)) (y ++ (x ++ r))
perm_swap_blocks x y r =
    rw (← append_assoc x y r, ← append_assoc y x r) (Perm.append_right r (perm_append_comm x y))

-- Moving a block of a list to the end of an earlier one.
perm_move {ℓ} : {A : Type ℓ} (a f b r : List A) → Perm ((a ++ f) ++ (b ++ r)) (a ++ (b ++ (f ++ r)))
perm_move a f b r = rw (append_assoc a f (b ++ r)) (Perm.append_left a (perm_swap_blocks f b r))

module _ (g : Gmp) where
  -- What the team has still to push.
  abbrev pub outstanding : Job → List Worker → List PlanetLocation
  outstanding job [] = []
  outstanding job (w ∷ ws) = pending g job w ++ outstanding job ws

  outstanding-append :
      (job : Job) (xs ys : List Worker)
      → outstanding job (xs ++ ys) ≡ outstanding job xs ++ outstanding job ys
  outstanding-append job [] ys = refl
  outstanding-append job (x ∷ xs) ys =
      ap (◌++◌ (pending g job x)) (outstanding-append job xs ys)
      ∙ sym (append_assoc (pending g job x) (outstanding job xs) (outstanding job ys))

  pub record Conserves (job : Job) (goal : List PlanetLocation) (t : Team) : Type 0 where
    pub ready : All (IsReady g job) t.workers
    pub balance : Perm (t.result ++ outstanding job t.workers) goal

  turn-Conserves :
      (job : Job) (goal : List PlanetLocation) (before : List Worker) (w w' : Worker)
      (after : List Worker) (res found : List PlanetLocation)
      → advance g job w ≡ some (w', found)
      → Conserves job goal (record { workers = before ++ w ∷ after; result = res })
      → Conserves job goal (record { workers = before ++ w' ∷ after; result = res ++ found })
  turn-Conserves job goal before w w' after res found e c = record {
    ready = append-All (IsReady g job) before (w' ∷ after) readies.0 (moved.0, readies.1.1);
    balance = Perm.trans moved_over c.balance;
  }
    where
      readies : All (IsReady g job) before × All (IsReady g job) (w ∷ after)
      readies = All-append (IsReady g job) before (w ∷ after) c.ready

      moved : IsReady g job w' × (found ++ pending g job w' ≡ pending g job w)
      moved = worker-Advanced g job w.sponge w.x w.ys w.xs (w', found) readies.1.0 e

      parts :
          outstanding job before ++ (found ++ (pending g job w' ++ outstanding job after))
          ≡ outstanding job (before ++ w ∷ after)
      parts =
          ap (◌++◌ (outstanding job before)) (
            sym (append_assoc found (pending g job w') (outstanding job after))
            ∙ ap (λ ps. ps ++ outstanding job after) moved.1)
          ∙ sym (outstanding-append job before (w ∷ after))

      moved_over :
          Perm
            ((res ++ found) ++ outstanding job (before ++ w' ∷ after))
            (res ++ outstanding job (before ++ w ∷ after))
      moved_over =
          subst (λ z. Perm ((res ++ found) ++ z) (res ++ outstanding job (before ++ w ∷ after)))
            (sym (outstanding-append job before (w' ∷ after)))
            (subst
              (λ z.
                Perm
                  ((res ++ found)
                    ++ (outstanding job before ++ (pending g job w' ++ outstanding job after)))
                  (res ++ z))
              parts
              (perm_move res found (outstanding job before)
                (pending g job w' ++ outstanding job after)))

  Step-Conserves :
      {job : Job} {goal : List PlanetLocation} {s t : Team}
      → Step g job s t
      → Conserves job goal s
      → Conserves job goal t
  Step-Conserves {job} {goal} {s} (turn before w w' after found e f h) c =
      subst (Conserves job goal) (sym h) (
        turn-Conserves job goal before w w' after s.result found e
          (subst (λ ws. Conserves job goal (record { workers = ws; result = s.result })) f c))

  pub Reach-Conserves :
      {job : Job} {goal : List PlanetLocation} {s t : Team}
      → Conserves job goal s
      → Reach g job s t
      → Conserves job goal t
  Reach-Conserves c here = c
  Reach-Conserves c (next r st) = Step-Conserves st (Reach-Conserves c r)
