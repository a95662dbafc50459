-- ===== src/Service/Rest.antt =====
-- blue-space/lib/rest.cpp, and the routing in blue-space/lib/server.cpp.
pub mod Response
pub mod Requests
use Prim.Native.Nat.{Ordering}
use Prim.Native.String.{compare, len, slice}
use blue_space.Prelude.{
  ℕ, zero, ◌+◌, ◌==◌, Bool, true, false, String, Option, none, some, List, [], ◌∷◌, ◌++◌, ◌≡◌, ◌<◌,
  ◌⊎◌, if◌then◌else◌,
}
use blue_space.Prelude.Int.{ℤ}
use blue_space.Outcome.{Outcome, done, throws, Exception, ptree_error, ◌>>=◌}
use blue_space.Footprint.{PlanetLocation}
use blue_space.Service.Api.{Miner, mine_single}

unfoldable pub same_string : String → String → Bool
same_string s t = elim (compare s t) [
  | Ordering.eq ↦ true
  | Ordering.lt ↦ false
  | Ordering.gt ↦ false
]

abbrev pub starts_with : String → String → Bool
starts_with s t = same_string (slice s 0 (len t)) t

-- Neither path is the beginning of the other, so that neither leads through the other's end.
abbrev pub IsApart : String → String → Type 0
IsApart s t = (starts_with s t ≡ false) × (starts_with t s ≡ false)

-- The part of Boost.PropertyTree that the handler uses, and how what it puts into a tree is read.
pub record PropertyTree : Type 1 where
  pub Tree : Type 0
  pub empty : Tree
  pub read_json : String → Outcome Tree
  pub get_int64 : String → Tree → Outcome ℤ
  pub put_int64 : String → ℤ → Tree → Tree
  pub put_string : String → String → Tree → Tree
  pub push_back : String → Tree → Tree → Tree
  pub add_child : String → Tree → Tree → Tree
  pub write_json : Tree → String
  pub get_string : String → Tree → Outcome String
  pub get_child : String → Tree → Option Tree
  -- The children, in their order, without their keys.
  pub children : Tree → List Tree
  -- What cannot be read is reported by an exception of type ptree_error.
  pub read_law :
      (s : String) → ((t : Tree) × (read_json s ≡ done t)) ⊎ (read_json s ≡ throws ptree_error)
  pub get_law :
      (path : String) (t : Tree)
      → ((n : ℤ) × (get_int64 path t ≡ done n)) ⊎ (get_int64 path t ≡ throws ptree_error)
  -- A put sets the value at its path.
  pub get_put_int64 :
      (path : String) (n : ℤ) (t : Tree) → get_int64 path (put_int64 path n t) ≡ done n
  pub get_put_string : (path s : String) (t : Tree) → get_string path (put_string path s t) ≡ done s
  -- It leaves what is at a path apart from it, and so does `add_child`.
  pub get_int64_put_int64 :
      (path other : String) (n : ℤ) (t : Tree)
      → IsApart path other
      → get_int64 path (put_int64 other n t) ≡ get_int64 path t
  pub get_int64_put_string :
      (path other s : String) (t : Tree)
      → IsApart path other
      → get_int64 path (put_string other s t) ≡ get_int64 path t
  pub get_int64_add_child :
      (path other : String) (v t : Tree)
      → IsApart path other
      → get_int64 path (add_child other v t) ≡ get_int64 path t
  pub get_child_put_int64 :
      (path other : String) (n : ℤ) (t : Tree)
      → IsApart path other
      → get_child path (put_int64 other n t) ≡ get_child path t
  -- The empty tree has no child; one that is added where there is none is found.
  pub get_child_empty : (path : String) → 0 < len path → get_child path empty ≡ none
  pub get_child_add_child :
      (path : String) (v t : Tree)
      → get_child path t ≡ none
      → get_child path (add_child path v t) ≡ some v
  -- `push_back` adds a child behind the others.
  pub children_empty : children empty ≡ []
  pub children_push_back :
      (key : String) (v t : Tree) → children (push_back key v t) ≡ children t ++ v ∷ []

module _ (p : PropertyTree) where
  open p use {
    Tree, empty, read_json, get_int64, put_int64, put_string, push_back, add_child, write_json,
  }

  unfoldable pub planet_location_json : PlanetLocation → Tree
  planet_location_json planet =
      put_string "hash" planet.hash
        (put_int64 "coords.y" planet.coordinate.y (put_int64 "coords.x" planet.coordinate.x empty))

  -- `planets_json`, from the entries that it has.
  unfoldable pub push_planets : List PlanetLocation → Tree → Tree
  push_planets [] planets_json = planets_json
  push_planets (planet ∷ planets) planets_json =
      push_planets planets (push_back "" (planet_location_json planet) planets_json)

  unfoldable pub response_json : ℤ → ℤ → ℤ → List PlanetLocation → Tree
  response_json side_length x y planets = add_child "planetLocations" (push_planets planets empty) (
      put_int64 "chunkFootprint.bottomLeft.y" y (
        put_int64 "chunkFootprint.bottomLeft.x" x
          (put_int64 "chunkFootprint.sideLength" side_length empty)))

  -- `handle_request` past the test of the size.
  unfoldable pub answer_json : Miner → String → Outcome String
  answer_json miner request = do
    request_json ← read_json request
    side_length ← get_int64 "chunkFootprint.sideLength" request_json
    x ← get_int64 "chunkFootprint.bottomLeft.x" request_json
    y ← get_int64 "chunkFootprint.bottomLeft.y" request_json
    planet_rarity ← get_int64 "planetRarity" request_json
    planet_hash_key ← get_int64 "planetHashKey" request_json
    planets ← mine_single miner x y side_length planet_rarity planet_hash_key
    done (write_json (response_json side_length x y planets))

  -- rest::Server::handle_request: what it passes to the callback, if it calls it.
  unfoldable pub handle_rest : Miner → String → Outcome (Option String)
  handle_rest miner request =
      if len request == 0 then done none else answer_json miner request >>= λ s. done (some s)

-- rpc::Server::handle_request, with jsonrpc::Server::HandleRequest for a parameter.
unfoldable pub handle_rpc : (String → Outcome String) → String → Outcome (Option String)
handle_rpc dispatch request =
    if len request == 0 then done none else dispatch request >>= λ s. done (some s)

-- Server::handle_request: what is sent on the session, if anything is.
unfoldable pub route :
    PropertyTree → (String → Outcome String) → Miner → String → String → Outcome (Option String)
route p dispatch miner path request =
    if same_string path "/mine" then handle_rest p miner request else handle_rpc dispatch request
