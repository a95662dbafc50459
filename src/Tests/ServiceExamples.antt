-- ===== src/Tests/ServiceExamples.antt =====
-- The theorems on the service, at a request for one location, with a miner that finds it.
use blue_space.Prelude.{
  ◌≡◌, refl, arith, Bool, ◌||◌, if◌then◌else◌, true, false, String, Option, none, some, ◌⊎◌, inl,
  inr, List, [], ◌∷◌, ◌++◌, ap,
}
use blue_space.Prelude.Int.{ℤ, pos, negsuc}
use blue_space.Outcome.{
  Outcome, done, throws, invalid_parameters_fault, ptree_error, ◌>>=◌, Exception,
}
use blue_space.Footprint.{PlanetLocation}
use package.text.Mathlib.TextPositions.{compare_refl, slice_all}
use blue_space.Service.Api.{Miner, mine_single}
use blue_space.Service.Rpc.{Values}
use blue_space.Service.Rest.{PropertyTree, route, same_string, starts_with}
use blue_space.Service.Rest.Response.{IsResponse}
use blue_space.Service.Rest.Requests.{IsAsked, route-cases}

-- Finds a planet at the corner of every chunk.
abbrev pub corner_miner : Miner
corner_miner = record {
  mine = λ chunk rarity key found.
      done (record { coordinate = chunk.bottom_left; hash = "0" } ∷ found);
}

pub data Json : Type 0 where
  number : ℤ → Json
  text : String → Json
  empty : Json
  entry : String → Json → Json → Json

abbrev pub is_number : Json → Bool
is_number (number n) = true
is_number (text s) = false
is_number empty = false
is_number (entry key v rest) = false

abbrev pub to_number : Json → Option ℤ
to_number (number n) = some n
to_number (text s) = none
to_number empty = none
to_number (entry key v rest) = none

abbrev pub or_throw {ℓ} : {A : Type ℓ} → Exception → Option A → Outcome A
or_throw e none = throws e
or_throw e (some n) = done n

pub number_law :
    (v : Json)
    → (is_number v || false) ≡ true
    → (n : ℤ) × (or_throw (invalid_parameters_fault "") (to_number v) ≡ done n)
number_law (number n) e = (n, refl)
number_law (text s) e = absurd (cc e)
number_law empty e = absurd (cc e)
number_law (entry key v rest) e = absurd (cc e)

abbrev object : List (String × Json) → Json
object [] = empty
object ((key, v) ∷ rest) = entry key v (object rest)

abbrev array : List Json → Json
array [] = empty
array (v ∷ rest) = entry "" v (array rest)

abbrev pub values : Values
values = record {
  Value = Json;
  is_integer_32 = λ v. false;
  is_integer_64 = is_number;
  as_integer_64 = λ v. or_throw (invalid_parameters_fault "") (to_number v);
  from_integer = number;
  from_string = text;
  from_struct = object;
  from_array = array;
  integer_law = number_law;
}

abbrev child : String → Json → Option Json
child path (number n) = none
child path (text s) = none
child path empty = none
child path (entry key v rest) = if starts_with path key then some v else child path rest

abbrev from_child {ℓ} : {A : Type ℓ} → (Json → Option A) → Option Json → Option A
from_child f none = none
from_child f (some v) = f v

abbrev lookup : String → Json → Option ℤ
lookup path t = from_child to_number (child path t)

abbrev to_text : Json → Option String
to_text (number n) = none
to_text (text s) = some s
to_text empty = none
to_text (entry key v rest) = none

abbrev push_entry : String → Json → Json → Json
push_entry key v (number n) = entry key v empty
push_entry key v (text s) = entry key v empty
push_entry key v empty = entry key v empty
push_entry key v (entry k w rest) = entry k w (push_entry key v rest)

abbrev entries : Json → List Json
entries (number n) = []
entries (text s) = []
entries empty = []
entries (entry key v rest) = v ∷ entries rest

pub entries-push_entry :
    (key : String) (v t : Json) → entries (push_entry key v t) ≡ entries t ++ v ∷ []
entries-push_entry key v (number n) = refl
entries-push_entry key v (text s) = refl
entries-push_entry key v empty = refl
entries-push_entry key v (entry k w rest) = ap (λ ts. w ∷ ts) (entries-push_entry key v rest)

abbrev pub sample : Json
sample = entry "chunkFootprint.sideLength" (number (pos 1)) (
    entry "chunkFootprint.bottomLeft.x" (number (negsuc 80)) (
      entry "chunkFootprint.bottomLeft.y" (number (pos 13)) (
        entry "planetRarity" (number (pos 16384))
          (entry "planetHashKey" (number (pos 420)) empty))))

pub throw_cases :
    (o : Option ℤ)
    → ((n : ℤ) × (or_throw ptree_error o ≡ done n)) ⊎ (or_throw ptree_error o ≡ throws ptree_error)
throw_cases none = inr refl
throw_cases (some n) = inl (n, refl)

pub starts_with_self : (path : String) → starts_with path path ≡ true
unfolding same_string
starts_with_self path = rw (slice_all path, same_string, compare_refl path) refl

abbrev pub tree : PropertyTree
tree = record {
  Tree = Json;
  empty = empty;
  read_json = λ s. done sample;
  get_int64 = λ path t. or_throw ptree_error (lookup path t);
  put_int64 = λ path n t. entry path (number n) t;
  put_string = λ path s t. entry path (text s) t;
  push_back = push_entry;
  add_child = λ path v t. entry path v t;
  write_json = λ t. "written";
  get_string = λ path t. or_throw ptree_error (from_child to_text (child path t));
  get_child = child;
  children = entries;
  read_law = λ s. inl (sample, refl);
  get_law = λ path t. throw_cases (lookup path t);
  get_put_int64 = λ path n t. rw (starts_with_self path) refl;
  get_put_string = λ path s t. rw (starts_with_self path) refl;
  get_int64_put_int64 = λ path other n t apart. rw apart.0 refl;
  get_int64_put_string = λ path other s t apart. rw apart.0 refl;
  get_int64_add_child = λ path other v t apart. rw apart.0 refl;
  get_child_put_int64 = λ path other n t apart. rw apart.0 refl;
  get_child_empty = λ path long. refl;
  get_child_add_child = λ path v t none_yet. rw (starts_with_self path) refl;
  children_empty = refl;
  children_push_back = entries-push_entry;
}

abbrev echo : String → Outcome String
echo s = done s

route-cases_example :
    (route tree echo corner_miner "/mine" "{}" ≡ throws ptree_error)
    ⊎ ((r : IsAsked tree "{}") × (render : List PlanetLocation → String) × ((planets : List
            PlanetLocation)
          → IsResponse tree r.side_length r.x r.y planets (render planets))
        × (route tree echo corner_miner "/mine" "{}"
            ≡ mine_single corner_miner r.x r.y r.side_length r.rarity r.key >>= λ planets.
                done (some (render planets))))
route-cases_example = route-cases tree echo corner_miner "{}" (omega arith)
