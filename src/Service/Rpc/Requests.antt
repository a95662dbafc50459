-- ===== src/Service/Rpc/Requests.antt =====
-- Which calls of stateless_mine reach the miner, and what they answer.
use blue_space.Prelude.{true, String, List, [], ◌∷◌, map, ◌≡◌, refl, inl, inr, Bool-cases}
use blue_space.Prelude.Int.{ℤ}
use blue_space.Outcome.{done, throws, invalid_parameters_fault, ◌>>=◌}
use blue_space.Footprint.{PlanetLocation}
use blue_space.Service.Api.{Miner, mine_single}
use blue_space.Service.Rpc.{
  Values, set, planet_to_json, is_integer, require, response, execute_five, execute,
}

module _ (j : Values) where
  open j use {Value, as_integer_64, from_integer, from_string, from_struct, from_array}

  -- The value holds the integer.
  abbrev pub Holds : Value → ℤ → Type 0
  Holds v n = (is_integer j v ≡ true) × (as_integer_64 v ≡ done n)

  -- The response, field by field, in the order of the keys.
  abbrev pub planet_value : PlanetLocation → Value
  planet_value p = from_struct (
      (
        "coords",
        from_struct (("x", from_integer p.coordinate.x) ∷ ("y", from_integer p.coordinate.y) ∷ []),
      )
      ∷ ("hash", from_string p.hash)
      ∷ [])

  abbrev pub answer : ℤ → ℤ → ℤ → List PlanetLocation → List (String × Value)
  answer x y size planets =
      (
        "chunkFootprint",
        from_struct (
            ("bottomLeft", from_struct (("x", from_integer x) ∷ ("y", from_integer y) ∷ []))
            ∷ ("sideLength", from_integer size)
            ∷ []),
      )
      ∷ ("planetLocations", from_array (map planet_value planets))
      ∷ []

  response-answer :
      (x y size : ℤ) (planets : List PlanetLocation)
      → response j x y size planets ≡ answer x y size planets
  unfolding response planet_to_json set
  response-answer x y size planets = refl

  -- With five integers for parameters the call ends as the miner's does when it is asked for them;
  -- where that returns planets, the answer has the chunk with the size of the request, and the
  -- coordinates and the hash of each planet.
  pub execute_integers :
      (miner : Miner) (a b c d e : Value) (x y size rarity key : ℤ)
      → Holds a x
      → Holds b y
      → Holds c size
      → Holds d rarity
      → Holds e key
      → execute j miner (a ∷ b ∷ c ∷ d ∷ e ∷ [])
        ≡ mine_single miner x y size rarity key >>= λ planets. done (answer x y size planets)
  unfolding execute execute_five require
  execute_integers miner a b c d e x y size rarity key ha hb hc hd he =
      rw (ha.0, hb.0, hc.0, hd.0, he.0, ha.1, hb.1, hc.1, hd.1, he.1)
        (λ i. mine_single miner x y size rarity key >>= λ planets.
          done (response-answer x y size planets i))

  -- Five parameters that are integers.
  abbrev pub IsRequest : List Value → Type 0
  IsRequest (a ∷ b ∷ c ∷ d ∷ e ∷ []) =
      (is_integer j a ≡ true)
      × (is_integer j b ≡ true)
      × (is_integer j c ≡ true)
      × (is_integer j d ≡ true)
      × (is_integer j e ≡ true)
  IsRequest params = ⊥

  abbrev Faults : Miner → List Value → Type 0
  Faults miner params =
      (message : String) × (execute j miner params ≡ throws (invalid_parameters_fault message))

  five-Faults :
      (miner : Miner) (a b c d e : Value)
      → ¬ IsRequest (a ∷ b ∷ c ∷ d ∷ e ∷ [])
      → Faults miner (a ∷ b ∷ c ∷ d ∷ e ∷ [])
  unfolding execute execute_five require
  five-Faults miner a b c d e h = elim (Bool-cases (is_integer j a)) [
    | inr n ↦ ("parameter [x] must be an integer", rw (n) refl)
    | inl ha ↦ elim (Bool-cases (is_integer j b)) [
      | inr n ↦ ("parameter [y] must be an integer", rw (ha, n) refl)
      | inl hb ↦ elim (Bool-cases (is_integer j c)) [
        | inr n ↦ ("parameter [size] must be an integer", rw (ha, hb, n) refl)
        | inl hc ↦ elim (Bool-cases (is_integer j d)) [
          | inr n ↦ ("parameter [rarity] must be an integer", rw (ha, hb, hc, n) refl)
          | inl hd ↦ elim (Bool-cases (is_integer j e)) [
            | inr n ↦ ("parameter [key] must be an integer", rw (ha, hb, hc, hd, n) refl)
            | inl he ↦ absurd (h (ha, hb, hc, hd, he))
          ]
        ]
      ]
    ]
  ]

  -- For parameters that are not five integers the call throws an InvalidParametersFault, whatever
  -- the miner.
  pub execute_faults :
      (miner : Miner) (params : List Value)
      → ¬ IsRequest params
      → (message : String) × (execute j miner params ≡ throws (invalid_parameters_fault message))
  unfolding execute
  execute_faults miner [] h = ("invalid parameters", refl)
  execute_faults miner (a ∷ []) h = ("invalid parameters", refl)
  execute_faults miner (a ∷ b ∷ []) h = ("invalid parameters", refl)
  execute_faults miner (a ∷ b ∷ c ∷ []) h = ("invalid parameters", refl)
  execute_faults miner (a ∷ b ∷ c ∷ d ∷ []) h = ("invalid parameters", refl)
  execute_faults miner (a ∷ b ∷ c ∷ d ∷ e ∷ []) h = five-Faults miner a b c d e h
  execute_faults miner (a ∷ b ∷ c ∷ d ∷ e ∷ f ∷ rest) h = ("invalid parameters", refl)
