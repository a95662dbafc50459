-- ===== src/Service/Rest/Requests.antt =====
-- Which requests to /mine are answered, and with what.
use Prim.Native.String.{len}
use blue_space.Prelude.{
  ◌<◌, ◌≡◌, refl, arith, String, List, some, ◌⊎◌, inl, inr, ne→==, ◌==◌, false,
}
use blue_space.Prelude.Int.{ℤ, to_u32}
use blue_space.Footprint.{PlanetLocation, ChunkFootprint}
use blue_space.Outcome.{Outcome, done, throws, ptree_error, ◌>>=◌, bind_assoc}
use blue_space.Service.Api.{Miner, mine_single}
use blue_space.Service.Rest.{
  PropertyTree, same_string, response_json, answer_json, handle_rest, route,
}
use blue_space.Service.Rest.Response.{IsResponse, response_json-IsResponse}

module _ (p : PropertyTree) where
  -- The request is JSON with the five numbers.
  pub record IsAsked (request : String) : Type 0 where
    pub tree : p.Tree
    pub read : p.read_json request ≡ done tree
    pub side_length : ℤ
    pub has_side_length : p.get_int64 "chunkFootprint.sideLength" tree ≡ done side_length
    pub x : ℤ
    pub has_x : p.get_int64 "chunkFootprint.bottomLeft.x" tree ≡ done x
    pub y : ℤ
    pub has_y : p.get_int64 "chunkFootprint.bottomLeft.y" tree ≡ done y
    pub rarity : ℤ
    pub has_rarity : p.get_int64 "planetRarity" tree ≡ done rarity
    pub key : ℤ
    pub has_key : p.get_int64 "planetHashKey" tree ≡ done key

  -- The chunk that a request asks for.
  abbrev pub asked_chunk : {body : String} → IsAsked body → ChunkFootprint
  asked_chunk r = record {
    bottom_left = record { x = r.x; y = r.y };
    side_length = to_u32 r.side_length;
  }

  -- A request to /mine with a body throws a ptree_error, or else it is JSON with the five numbers,
  -- and it ends as the miner does when it is asked for them; where that returns planets, it is
  -- answered with the JSON of a tree that reads as them, in their order, and the chunk that was
  -- asked for.
  pub route-cases :
      (dispatch : String → Outcome String) (miner : Miner) (request : String)
      → 0 < len request
      → (route p dispatch miner "/mine" request ≡ throws ptree_error)
        ⊎ ((r : IsAsked request) × (render : List PlanetLocation → String) × ((planets : List
                PlanetLocation)
              → IsResponse p r.side_length r.x r.y planets (render planets))
            × (route p dispatch miner "/mine" request
                ≡ mine_single miner r.x r.y r.side_length r.rarity r.key >>= λ planets.
                    done (some (render planets))))
  unfolding route handle_rest answer_json same_string
  route-cases dispatch miner request h = elim (p.read_law request) [
    | inr f ↦ inl (rw (nonempty, f) refl)
    | inl (t, et) ↦ elim (p.get_law "chunkFootprint.sideLength" t) [
      | inr f ↦ inl (rw (nonempty, et, f) refl)
      | inl (n0, e0) ↦ elim (p.get_law "chunkFootprint.bottomLeft.x" t) [
        | inr f ↦ inl (rw (nonempty, et, e0, f) refl)
        | inl (n1, e1) ↦ elim (p.get_law "chunkFootprint.bottomLeft.y" t) [
          | inr f ↦ inl (rw (nonempty, et, e0, e1, f) refl)
          | inl (n2, e2) ↦ elim (p.get_law "planetRarity" t) [
            | inr f ↦ inl (rw (nonempty, et, e0, e1, e2, f) refl)
            | inl (n3, e3) ↦ elim (p.get_law "planetHashKey" t) [
              | inr f ↦ inl (rw (nonempty, et, e0, e1, e2, e3, f) refl)
              | inl (n4, e4) ↦ inr (
                record {
                  tree = t;
                  read = et;
                  side_length = n0;
                  has_side_length = e0;
                  x = n1;
                  has_x = e1;
                  y = n2;
                  has_y = e2;
                  rarity = n3;
                  has_rarity = e3;
                  key = n4;
                  has_key = e4;
                },
                λ planets. p.write_json (response_json p n0 n1 n2 planets),
                λ planets. response_json-IsResponse p n0 n1 n2 planets,
                rw (nonempty, et, e0, e1, e2, e3, e4)
                    (bind_assoc (mine_single miner n1 n2 n0 n3 n4) _ _),
              )
            ]
          ]
        ]
      ]
    ]
  ]
    where
      nonempty : (len request == 0) ≡ false
      nonempty = ne→== (len request) 0 (omega arith)
