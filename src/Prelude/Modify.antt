-- ===== src/Prelude/Modify.antt =====
-- A list with the item at one place changed.
use Prim.Native.Nat.{ℕ, zero, suc}
use mathlib.Core.Path.{◌≡◌, refl, ap, subst}
use mathlib.Core.Logic.{◌≢◌}
use mathlib.Core.List.{List, [], ◌∷◌, ◌++◌}
use mathlib.Core.Option.{some, some-injective}
use blue_space.Prelude.Lists.{length, get_elem?, All}

-- Past the end nothing changes.
unfoldable pub modify {ℓ} : {A : Type ℓ} → ℕ → (A → A) → List A → List A
modify i f [] = []
modify zero f (x ∷ xs) = f x ∷ xs
modify (suc i) f (x ∷ xs) = x ∷ modify i f xs

module _ {ℓ} {A : Type ℓ} where
  pub length-modify : (i : ℕ) (f : A → A) (xs : List A) → length (modify i f xs) ≡ length xs
  unfolding modify
  length-modify i f [] = refl
  length-modify zero f (x ∷ xs) = refl
  length-modify (suc i) f (x ∷ xs) = ap suc (length-modify i f xs)

  pub get_elem?-modify_self :
      (i : ℕ) (f : A → A) (xs : List A) (x : A)
      → get_elem? xs i ≡ some x
      → get_elem? (modify i f xs) i ≡ some (f x)
  unfolding modify
  get_elem?-modify_self i f [] x e = absurd (cc e)
  get_elem?-modify_self zero f (y ∷ xs) x e = cc
  get_elem?-modify_self (suc i) f (y ∷ xs) x e = get_elem?-modify_self i f xs x e

  pub get_elem?-modify_ne :
      (i j : ℕ) (f : A → A) (xs : List A) → i ≢ j → get_elem? (modify i f xs) j ≡ get_elem? xs j
  unfolding modify
  get_elem?-modify_ne i j f [] h = refl
  get_elem?-modify_ne zero zero f (x ∷ xs) h = absurd (h refl)
  get_elem?-modify_ne zero (suc j) f (x ∷ xs) h = refl
  get_elem?-modify_ne (suc i) zero f (x ∷ xs) h = refl
  get_elem?-modify_ne (suc i) (suc j) f (x ∷ xs) h =
      get_elem?-modify_ne i j f xs (λ e. h (ap suc e))

  pub get_elem?-append_last : (xs : List A) (x : A) → get_elem? (xs ++ x ∷ []) (length xs) ≡ some x
  get_elem?-append_last [] x = refl
  get_elem?-append_last (y ∷ xs) x = get_elem?-append_last xs x

  pub get_elem?-append_some :
      (xs ys : List A) (i : ℕ) (x : A) → get_elem? xs i ≡ some x → get_elem? (xs ++ ys) i ≡ some x
  get_elem?-append_some [] ys i x e = absurd (cc e)
  get_elem?-append_some (y ∷ xs) ys zero x e = e
  get_elem?-append_some (y ∷ xs) ys (suc i) x e = get_elem?-append_some xs ys i x e

  module _ {κ} (P : A → Type κ) where
    pub All-modify :
        (i : ℕ) (f : A → A) (xs : List A)
        → All P xs
        → ((x : A) → get_elem? xs i ≡ some x → P x → P (f x))
        → All P (modify i f xs)
    unfolding modify
    All-modify i f [] h k = tt
    All-modify zero f (x ∷ xs) h k = (k x refl h.0, h.1)
    All-modify (suc i) f (x ∷ xs) h k = (h.0, All-modify i f xs h.1 k)

    pub All-append_one : (xs : List A) (x : A) → All P xs → P x → All P (xs ++ x ∷ [])
    All-append_one [] x h p = (p, tt)
    All-append_one (y ∷ xs) x h p = (h.0, All-append_one xs x h.1 p)

    pub All-get_elem? : (xs : List A) (i : ℕ) (x : A) → All P xs → get_elem? xs i ≡ some x → P x
    All-get_elem? [] i x h e = absurd (cc e)
    All-get_elem? (y ∷ xs) zero x h e = subst P (some-injective _ _ e) h.0
    All-get_elem? (y ∷ xs) (suc i) x h e = All-get_elem? xs i x h.1 e
