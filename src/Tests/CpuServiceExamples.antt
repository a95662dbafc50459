-- ===== src/Tests/CpuServiceExamples.antt =====
-- The theorem on the service with the CPU miner, at a request for one location.
use blue_space.Prelude.{inl, ◌^◌, refl}
use blue_space.Prelude.Int.{pos}
use blue_space.Outcome.{done}
use blue_space.Service.Rest.Requests.{IsAsked}
use blue_space.Service.Api.{Miner}
use blue_space.Service.Rest.{PropertyTree, same_string}
use blue_space.Service.CpuService.{first_come, cpu_interface}
use blue_space.Tests.Models.{gmp, one_thread}
use blue_space.Tests.CpuRuns.{options}
use blue_space.Tests.ServiceExamples.{tree, Json, entry, number, empty}

abbrev miner : Miner
miner = cpu_interface gmp one_thread (first_come gmp) options

-- A request with a rarity of 2 ^ 32.
abbrev wide : Json
wide = entry "chunkFootprint.sideLength" (number (pos 1)) (
    entry "chunkFootprint.bottomLeft.x" (number (pos 0)) (
      entry "chunkFootprint.bottomLeft.y" (number (pos 0)) (
        entry "planetRarity" (number (pos (2 ^ 32)))
          (entry "planetHashKey" (number (pos 420)) empty))))

abbrev wide_tree : PropertyTree
wide_tree = record tree { read_json = λ s. done wide; read_law = λ s. inl (wide, refl) }

wide_asked : IsAsked wide_tree "{}"
unfolding same_string
wide_asked = record {
  tree = wide;
  read = refl;
  side_length = pos 1;
  has_side_length = refl;
  x = pos 0;
  has_x = refl;
  y = pos 0;
  has_y = refl;
  rarity = pos (2 ^ 32);
  has_rarity = refl;
  key = pos 420;
  has_key = refl;
}
