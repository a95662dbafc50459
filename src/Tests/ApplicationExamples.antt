-- ===== src/Tests/ApplicationExamples.antt =====
-- The theorem on the two endpoints, at a request for one location.
use blue_space.Prelude.{◌≡◌, refl, arith, String, some, List, [], ◌∷◌}
use blue_space.Prelude.Int.{pos, negsuc}
use blue_space.Outcome.{done}
use blue_space.Service.Rpc.{is_integer}
use blue_space.Service.Rpc.Requests.{answer}
use blue_space.Service.Rest.{same_string}
use blue_space.Service.Rest.Response.{IsResponse}
use blue_space.Service.Session.{Session}
use blue_space.Service.Listener.{Listener}
use blue_space.Service.Rest.Requests.{IsAsked}
use blue_space.Service.Api.{mine_single}
use blue_space.Tests.RpcModel.{json_rpc, params_of}
use blue_space.Service.Application.Serving.{serve, endpoints_agree}
use blue_space.Tests.ServiceExamples.{number, corner_miner, values, tree, sample}
use blue_space.Footprint.{PlanetLocation}

unfoldable pub asked : IsAsked tree "{}"
unfolding same_string
asked = record {
  tree = sample;
  read = refl;
  side_length = pos 1;
  has_side_length = refl;
  x = negsuc 80;
  has_x = refl;
  y = pos 13;
  has_y = refl;
  rarity = pos 16384;
  has_rarity = refl;
  key = pos 420;
  has_key = refl;
}

abbrev planets : List PlanetLocation
planets = record { coordinate = record { x = negsuc 80; y = pos 13 }; hash = "0" } ∷ []

mined : mine_single corner_miner (negsuc 80) (pos 13) (pos 1) (pos 16384) (pos 420) ≡ done planets
unfolding mine_single
mined = refl

endpoints_agree_example :
    ((reply : String) × IsResponse tree (pos 1) (negsuc 80) (pos 13) planets reply
      × (serve values json_rpc tree (some corner_miner) 8000 "/mine" "{}" ≡ done (some reply)))
    × (serve values json_rpc tree (some corner_miner) 8000 "/" "call"
        ≡ done (
            some (
              json_rpc.success "call"
                (values.from_struct (answer values (negsuc 80) (pos 13) (pos 1) planets)))))
unfolding asked is_integer same_string params_of
endpoints_agree_example =
    endpoints_agree values json_rpc tree corner_miner 8000 "/" "{}" "call" (number (negsuc 80))
      (number (pos 13)) (number (pos 1)) (number (pos 16384)) (number (pos 420)) asked planets
      (omega arith) (omega arith) refl refl (refl, refl) (refl, refl) (refl, refl) (refl, refl)
      (refl, refl) mined
