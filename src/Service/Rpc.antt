-- ===== src/Service/Rpc.antt =====
-- blue-space/lib/rpc/stateless.cpp and include/application/rpc/method.h: the method stateless_mine.
pub mod Requests
pub mod Server
use Prim.Native.Nat.{Ordering}
use Prim.Native.String.{compare}
use blue_space.Prelude.{
  Bool, true, false, ◌||◌, String, Option, none, some, List, [], ◌∷◌, map, ◌≡◌,
}
use blue_space.Prelude.Int.{ℤ}
use blue_space.Outcome.{
  Outcome, done, throws, Exception, invalid_parameters_fault, fault, ◌>>=◌, ◌>>◌,
}
use blue_space.Footprint.{PlanetLocation}
use blue_space.Service.Api.{Miner, mine_single}

-- std::map<std::string, V>, in the order of its keys.
abbrev pub Struct : Type 0 → Type 0
Struct V = List (String × V)

-- m[key] = v
unfoldable pub set : {V : Type 0} → String → V → Struct V → Struct V
set key v [] = (key, v) ∷ []
set key v ((k, w) ∷ rest) = elim (compare key k) [
  | Ordering.lt ↦ (key, v) ∷ (k, w) ∷ rest
  | Ordering.eq ↦ (key, v) ∷ rest
  | Ordering.gt ↦ (k, w) ∷ set key v rest
]

-- The part of jsonrpc::Value that the method uses.
pub record Values : Type 1 where
  pub Value : Type 0
  pub is_integer_32 : Value → Bool
  pub is_integer_64 : Value → Bool
  pub as_integer_64 : Value → Outcome ℤ
  pub from_integer : ℤ → Value
  pub from_string : String → Value
  pub from_struct : Struct Value → Value
  pub from_array : List Value → Value
  -- Any value that holds an integer is read as one of 64 bits.
  pub integer_law :
      (v : Value)
      → (is_integer_64 v || is_integer_32 v) ≡ true
      → (n : ℤ) × (as_integer_64 v ≡ done n)

module _ (j : Values) where
  open j use {
    Value, is_integer_32, is_integer_64, as_integer_64, from_integer, from_string, from_struct,
    from_array,
  }

  unfoldable pub planet_to_json : PlanetLocation → Struct Value
  planet_to_json planet =
      let c =
        set "y" (from_integer planet.coordinate.y)
          (set "x" (from_integer planet.coordinate.x) []) in
      set "hash" (from_string planet.hash) (set "coords" (from_struct c) [])

  unfoldable pub is_integer : Value → Bool
  is_integer v = is_integer_64 v || is_integer_32 v

  -- `if (!ok) throw InvalidParametersFault(message)`
  unfoldable pub require : Bool → String → Outcome (Unit {0})
  require true message = done tt
  require false message = throws (invalid_parameters_fault message)

  unfoldable pub response : ℤ → ℤ → ℤ → List PlanetLocation → Struct Value
  response x y size planets =
      let json_planets = map (λ planet. from_struct (planet_to_json planet)) planets in
      let bottom_left = set "y" (from_integer y) (set "x" (from_integer x) []) in
      let chunk_footprint =
        set "sideLength" (from_integer size) (set "bottomLeft" (from_struct bottom_left) []) in
      set "chunkFootprint" (from_struct chunk_footprint)
        (set "planetLocations" (from_array json_planets) [])

  -- `execute` past the test of the number of parameters.
  unfoldable pub execute_five :
      Miner → Value → Value → Value → Value → Value → Outcome (Struct Value)
  execute_five miner x_param y_param size_param rarity_param key_param = do
    require (is_integer x_param) "parameter [x] must be an integer"
    require (is_integer y_param) "parameter [y] must be an integer"
    require (is_integer size_param) "parameter [size] must be an integer"
    require (is_integer rarity_param) "parameter [rarity] must be an integer"
    require (is_integer key_param) "parameter [key] must be an integer"
    x ← as_integer_64 x_param
    y ← as_integer_64 y_param
    size ← as_integer_64 size_param
    rarity ← as_integer_64 rarity_param
    key ← as_integer_64 key_param
    planets ← mine_single miner x y size rarity key
    done (response x y size planets)

  unfoldable pub execute : Miner → List Value → Outcome (Struct Value)
  execute miner (x ∷ y ∷ size ∷ rarity ∷ key ∷ []) = execute_five miner x y size rarity key
  execute miner params = throws (invalid_parameters_fault "invalid parameters")

  -- Method::operator(): the weak pointer to the API may have expired. `execute` returns a success or
  -- throws, so that the test of its result never fails.
  unfoldable pub call_method : Option Miner → List Value → Outcome Value
  call_method none params = throws (fault "api not available")
  call_method (some miner) params = do result ← execute miner params; done (from_struct result)
