-- ===== src/Service/Application/Serving.antt =====
-- What a started application answers, and where it listens.
use Prim.Native.String.{len}
use blue_space.Prelude.{
  ℕ, ◌%◌, ◌^◌, ◌<◌, ◌≡◌, refl, ap, ◌∙◌, arith, false, String, Option, none, some, List, [], ◌∷◌,
  ne→==, Bool-cases, inl, inr, ◌==◌,
}
use blue_space.Outcome.{done, invalid_parameters_fault, ◌>>=◌}
use blue_space.Footprint.{PlanetLocation}
use blue_space.Service.Api.{Miner, mine_single}
use blue_space.Service.Rpc.{Values, call_method}
use blue_space.Service.Rpc.Requests.{Holds, answer, IsRequest, execute_integers, execute_faults}
use blue_space.Service.Rpc.Server.{
  JsonRpc, new_rpc_server, initialize_rpc, register_method, register_methods, dispatch,
}
use blue_space.Service.Rest.{
  PropertyTree, route, same_string, handle_rpc, handle_rest, answer_json, response_json,
}
use blue_space.Service.Rest.Requests.{IsAsked}
use blue_space.Service.Rest.Response.{IsResponse, response_json-IsResponse}
use blue_space.Service.Session.{Handler}
use blue_space.Service.Listener.{Asio, Listener}
use blue_space.Service.Listener.Steps.{IsAccepting}
use blue_space.Service.Listener.Opening.{ListensOn, start_server-IsAccepting}
use blue_space.Service.Application.{
  pointed_to, new_application, initialize_application, application_handler, start_application,
}

module _ (j : Values) (rpc : JsonRpc j) (p : PropertyTree) where
  -- The handler of an application with the miner.
  abbrev pub serve : Option Miner → ℕ → Handler
  serve miner http_port =
      application_handler j rpc p
        (initialize_application j rpc p miner (new_application j rpc p http_port))

  rpc_answers :
      (miner : Miner) (http_port : ℕ) (path request : String) (params : List j.Value) (v : j.Value)
      → 0 < len request
      → same_string path "/mine" ≡ false
      → rpc.Calls request "stateless_mine" params
      → call_method j (some miner) params ≡ done v
      → serve (some miner) http_port path request ≡ done (some (rpc.success request v))
  unfolding application_handler initialize_application register_methods register_method dispatch
      initialize_rpc route handle_rpc new_application new_rpc_server pointed_to
  rpc_answers miner http_port path request params v long other calls e =
      rw
        (
          other,
          nonempty,
          rpc.result_law rpc.empty "stateless_mine" (call_method j (some miner)) request params v
              calls e,
        )
        refl
    where
      nonempty : (len request == 0) ≡ false
      nonempty = ne→== (len request) 0 (omega arith)

  -- A call of stateless_mine whose parameters are not five integers is answered with a fault,
  -- whatever the miner.
  pub rpc_faults :
      (miner : Miner) (http_port : ℕ) (path request : String) (params : List j.Value)
      → 0 < len request
      → same_string path "/mine" ≡ false
      → rpc.Calls request "stateless_mine" params
      → ¬ IsRequest j params
      → (message : String) × (serve (some miner) http_port path request
          ≡ done (some (rpc.failure request (invalid_parameters_fault message))))
  unfolding application_handler initialize_application register_methods register_method dispatch
      initialize_rpc route handle_rpc new_application new_rpc_server pointed_to call_method
  rpc_faults miner http_port path request params long other calls bad =
      let (message, faults) = execute_faults j miner params bad in
      let nonempty : (len request == 0) ≡ false = ne→== (len request) 0 (omega arith) in
      (
        message,
        rw
            (
              other,
              nonempty,
              rpc.fault_law rpc.empty "stateless_mine" (call_method j (some miner)) request params
                  message calls (ap (λ o. o >>= λ v. done (j.from_struct v)) faults),
            )
            refl,
      )

  -- A request without a body gets no answer, on any path.
  pub empty_request :
      (miner : Miner) (http_port : ℕ) (path request : String)
      → len request ≡ 0
      → serve (some miner) http_port path request ≡ done none
  unfolding application_handler initialize_application pointed_to new_application new_rpc_server
      route handle_rest handle_rpc
  empty_request miner http_port path request empty = elim (Bool-cases (same_string path "/mine")) [
    | inl e ↦ rw (e, empty) refl
    | inr e ↦ rw (e, empty) refl
  ]

  -- A request to /mine with the five numbers is answered with the chunk and the planets.
  pub rest_answers :
      (miner : Miner) (http_port : ℕ) (request : String) (r : IsAsked p request)
      (planets : List PlanetLocation)
      → 0 < len request
      → mine_single miner r.x r.y r.side_length r.rarity r.key ≡ done planets
      → (reply : String) × IsResponse p r.side_length r.x r.y planets reply
        × (serve (some miner) http_port "/mine" request ≡ done (some reply))
  unfolding application_handler initialize_application pointed_to new_application new_rpc_server
      route handle_rest answer_json same_string
  rest_answers miner http_port request r planets long mined = (
    p.write_json (response_json p r.side_length r.x r.y planets),
    response_json-IsResponse p r.side_length r.x r.y planets,
    rw (nonempty, r.read, r.has_side_length, r.has_x, r.has_y, r.has_rarity, r.has_key, mined) refl,
  )
    where
      nonempty : (len request == 0) ≡ false
      nonempty = ne→== (len request) 0 (omega arith)

  -- A request to /mine with the five numbers and a call of stateless_mine with the same numbers,
  -- on any other path, are both answered with the planets of one call of the miner, where that
  -- returns planets: the first with the JSON of a tree that reads as the chunk and the planets, in
  -- their order, the second with the JSON-RPC struct of the same chunk and planets.
  pub endpoints_agree :
      (miner : Miner) (http_port : ℕ) (path rest_request rpc_request : String) (a b c d e : j.Value)
      (r : IsAsked p rest_request) (planets : List PlanetLocation)
      → 0 < len rest_request
      → 0 < len rpc_request
      → same_string path "/mine" ≡ false
      → rpc.Calls rpc_request "stateless_mine" (a ∷ b ∷ c ∷ d ∷ e ∷ [])
      → Holds j a r.x
      → Holds j b r.y
      → Holds j c r.side_length
      → Holds j d r.rarity
      → Holds j e r.key
      → mine_single miner r.x r.y r.side_length r.rarity r.key ≡ done planets
      → ((reply : String) × IsResponse p r.side_length r.x r.y planets reply
          × (serve (some miner) http_port "/mine" rest_request ≡ done (some reply)))
        × (serve (some miner) http_port path rpc_request
            ≡ done (
                some (
                  rpc.success rpc_request
                    (j.from_struct (answer j r.x r.y r.side_length planets)))))
  unfolding call_method
  endpoints_agree miner http_port path rest_request rpc_request a b c d e r planets long_rest
        long_rpc other calls ha hb hc hd he mined =
      (
        rest_answers miner http_port rest_request r planets long_rest mined,
        rpc_answers miner http_port path rpc_request (a ∷ b ∷ c ∷ d ∷ e ∷ []) _ long_rpc other calls
            (ap (λ o. o >>= λ v. done (j.from_struct v))
              (execute_integers j miner a b c d e r.x r.y r.side_length r.rarity r.key ha hb hc hd
                  he
                ∙ ap (λ o. o >>= λ found. done (answer j r.x r.y r.side_length found)) mined)),
      )

  -- An application that has started accepts connections for its handler, one at a time, on the
  -- port that is left of its option modulo 2 ^ 16.
  pub start_application-ListensOn :
      (asio : Asio) (miner : Option Miner) (http_port : ℕ) (l : Listener)
      → start_application j rpc p asio
          (initialize_application j rpc p miner (new_application j rpc p http_port))
        ≡ done l
      → ListensOn (http_port % 2 ^ 16) l × IsAccepting (serve miner http_port) l
  unfolding start_application initialize_application new_application
  start_application-ListensOn asio miner http_port l e =
      let (accepting, listens) =
        start_server-IsAccepting (serve miner http_port) asio (http_port % 2 ^ 16) l e in
      (listens, accepting)
