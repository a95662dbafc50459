-- ===== src/Service/Rest/Response.antt =====
-- blue-space/lib/rest.cpp: what the tree that is written as the response to /mine holds.
use blue_space.Prelude.{
  arith, ◌≡◌, refl, sym, ap, ◌∙◌, String, some, List, [], ◌∷◌, ◌++◌, map, subst,
}
use blue_space.Prelude.Int.{ℤ}
use blue_space.Outcome.{done}
use blue_space.Footprint.{PlanetLocation}
use blue_space.Service.Rest.{
  PropertyTree, same_string, planet_location_json, push_planets, response_json,
}
use mathlib.Core.List.{append_assoc, append-nil}

module _ (p : PropertyTree) where
  -- The entry reads as the planet.
  pub record IsEntry (planet : PlanetLocation) (t : p.Tree) : Type 0 where
    pub has_x : p.get_int64 "coords.x" t ≡ done planet.coordinate.x
    pub has_y : p.get_int64 "coords.y" t ≡ done planet.coordinate.y
    pub has_hash : p.get_string "hash" t ≡ done planet.hash

  -- One entry for each planet, in the same order.
  pub data Entries : List PlanetLocation → List p.Tree → Type 0 where
    no_entry : Entries [] []
    entry :
        {planet : PlanetLocation} {planets : List PlanetLocation} {t : p.Tree} {ts : List p.Tree}
        → IsEntry planet t
        → Entries planets ts
        → Entries (planet ∷ planets) (t ∷ ts)

  -- The response is the JSON of a tree that reads as the chunk and the planets.
  pub record IsResponse (side_length x y : ℤ) (planets : List PlanetLocation) (response : String)
      : Type 0 where
    pub tree : p.Tree
    pub written : response ≡ p.write_json tree
    pub has_side_length : p.get_int64 "chunkFootprint.sideLength" tree ≡ done side_length
    pub has_x : p.get_int64 "chunkFootprint.bottomLeft.x" tree ≡ done x
    pub has_y : p.get_int64 "chunkFootprint.bottomLeft.y" tree ≡ done y
    pub locations : p.Tree
    pub has_locations : p.get_child "planetLocations" tree ≡ some locations
    pub entries : Entries planets (p.children locations)

  planet_location_json-IsEntry :
      (planet : PlanetLocation) → IsEntry planet (planet_location_json p planet)
  unfolding planet_location_json same_string
  planet_location_json-IsEntry planet = record {
    has_x =
        p.get_int64_put_string "coords.x" "hash" _ _ (refl, refl)
        ∙ p.get_int64_put_int64 "coords.x" "coords.y" _ _ (refl, refl)
        ∙ p.get_put_int64 "coords.x" _ _;
    has_y =
        p.get_int64_put_string "coords.y" "hash" _ _ (refl, refl) ∙ p.get_put_int64 "coords.y" _ _;
    has_hash = p.get_put_string "hash" _ _;
  }

  entries_of :
      (planets : List PlanetLocation) → Entries planets (map (planet_location_json p) planets)
  entries_of [] = no_entry
  entries_of (planet ∷ planets) = entry (planet_location_json-IsEntry planet) (entries_of planets)

  children-push_planets :
      (planets : List PlanetLocation) (t : p.Tree)
      → p.children (push_planets p planets t) ≡ p.children t ++ map (planet_location_json p) planets
  unfolding push_planets
  children-push_planets [] t = sym (append-nil (p.children t))
  children-push_planets (planet ∷ planets) t =
      children-push_planets planets (p.push_back "" (planet_location_json p planet) t)
      ∙ ap (λ ts. ts ++ map (planet_location_json p) planets)
          (p.children_push_back "" (planet_location_json p planet) t)
      ∙ append_assoc (p.children t) (planet_location_json p planet ∷ []) _

  pub response_json-IsResponse :
      (side_length x y : ℤ) (planets : List PlanetLocation)
      → IsResponse side_length x y planets (p.write_json (response_json p side_length x y planets))
  unfolding response_json same_string
  response_json-IsResponse side_length x y planets = record {
    tree = response_json p side_length x y planets;
    written = refl;
    has_side_length =
        p.get_int64_add_child "chunkFootprint.sideLength" "planetLocations" _ _ (refl, refl)
        ∙ p.get_int64_put_int64 "chunkFootprint.sideLength" "chunkFootprint.bottomLeft.y" _ _
            (refl, refl)
        ∙ p.get_int64_put_int64 "chunkFootprint.sideLength" "chunkFootprint.bottomLeft.x" _ _
            (refl, refl)
        ∙ p.get_put_int64 "chunkFootprint.sideLength" _ _;
    has_x =
        p.get_int64_add_child "chunkFootprint.bottomLeft.x" "planetLocations" _ _ (refl, refl)
        ∙ p.get_int64_put_int64 "chunkFootprint.bottomLeft.x" "chunkFootprint.bottomLeft.y" _ _
            (refl, refl)
        ∙ p.get_put_int64 "chunkFootprint.bottomLeft.x" _ _;
    has_y =
        p.get_int64_add_child "chunkFootprint.bottomLeft.y" "planetLocations" _ _ (refl, refl)
        ∙ p.get_put_int64 "chunkFootprint.bottomLeft.y" _ _;
    locations = push_planets p planets p.empty;
    has_locations = p.get_child_add_child "planetLocations" _ _ (
        p.get_child_put_int64 "planetLocations" "chunkFootprint.bottomLeft.y" _ _ (refl, refl)
        ∙ p.get_child_put_int64 "planetLocations" "chunkFootprint.bottomLeft.x" _ _ (refl, refl)
        ∙ p.get_child_put_int64 "planetLocations" "chunkFootprint.sideLength" _ _ (refl, refl)
        ∙ p.get_child_empty "planetLocations" (omega arith));
    entries =
        subst (Entries planets)
          (sym (
            children-push_planets planets p.empty
            ∙ ap (λ ts. ts ++ map (planet_location_json p) planets) p.children_empty))
          (entries_of planets);
  }
