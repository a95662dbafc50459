-- ===== src/Service/Application/Failures.antt =====
-- A request that ends the service.
use Prim.Native.String.{len}
use blue_space.Prelude.{
  ℕ, ◌<◌, ◌≡◌, ◌≢◌, refl, String, some, [], ◌∷◌, get_elem?, false, arith, ne→==, ◌==◌,
}
use blue_space.Prelude.Modify.{All-get_elem?}
use blue_space.Outcome.{
  done, throws, dies, Exception, ptree_error, invalid_argument, Death, terminate,
}
use blue_space.Service.Api.{Miner, mine_single}
use blue_space.Service.Rpc.{Values}
use blue_space.Service.Rpc.Server.{JsonRpc}
use blue_space.Service.Rest.{PropertyTree, route, handle_rest, answer_json, same_string}
use blue_space.Service.Rest.Requests.{IsAsked}
use blue_space.Service.Session.{
  Session, Beast, post, async_read, on_read, handle_request, handle_method,
}
use blue_space.Service.Listener.{
  Asio, Listener, Network, NetworkEnds, completion_throws, completion_dies,
}
use blue_space.Service.Listener.Steps.{IsServed}
use blue_space.Service.Listener.Accepting.{one_accept_pending}
use blue_space.Service.Application.{
  pointed_to, new_application, initialize_application, start_application, application_handler,
}
use blue_space.Service.Application.Serving.{serve}
use blue_space.Service.Application.Answers.{reading-handler}

module _ (j : Values) (rpc : JsonRpc j) (p : PropertyTree) where
  nonempty : (body : String) → 0 < len body → (len body == 0) ≡ false
  nonempty body long = ne→== (len body) 0 (omega arith)

  pub rest_throws :
      (miner : Miner) (http_port : ℕ) (body : String)
      → 0 < len body
      → p.read_json body ≡ throws ptree_error
      → serve j rpc p (some miner) http_port "/mine" body ≡ throws ptree_error
  unfolding application_handler initialize_application new_application route handle_rest answer_json
      same_string
  rest_throws miner http_port body long e = rw (nonempty body long, e) refl

  pub rest_dies :
      (miner : Miner) (http_port : ℕ) (body : String) (r : IsAsked p body) (d : Death)
      → 0 < len body
      → mine_single miner r.x r.y r.side_length r.rarity r.key ≡ dies d
      → serve j rpc p (some miner) http_port "/mine" body ≡ dies d
  unfolding application_handler initialize_application new_application pointed_to route handle_rest
      answer_json same_string
  rest_dies miner http_port body r d long e =
      rw
        (
          nonempty body long,
          r.read,
          r.has_side_length,
          r.has_x,
          r.has_y,
          r.has_rarity,
          r.has_key,
          e,
        )
        refl

  module _ (asio : Asio) (b : Beast) (miner : Miner) (http_port : ℕ) (l m : Listener)
      (begun : start_application j rpc p asio
          (initialize_application j rpc p (some miner) (new_application j rpc p http_port))
        ≡ done l)
      (run : Network b l m) (i : ℕ) (s : Session) (found : get_elem? m.sessions i ≡ some s)
      (reads : s.pending ≡ async_read ∷ []) (body : String) where
    handler : s.on_request ≡ some (serve j rpc p (some miner) http_port)
    unfolding start_application initialize_application new_application
    handler =
        let h = serve j rpc p (some miner) http_port in
        reading-handler h s
          (All-get_elem? (IsServed h) m.sessions i s
            (one_accept_pending h asio b _ l m begun run).served found)
          reads

    pub throwing_request_ends :
        (x : Exception)
        → serve j rpc p (some miner) http_port "/mine" body ≡ throws x
        → x ≢ invalid_argument
        → NetworkEnds m terminate
    unfolding on_read handle_request handle_method
    throwing_request_ends x e other =
        completion_throws i s [] false (record { method = post; target = "/mine"; body = body }) x
          found reads thrown other
      where
        thrown :
            on_read false
              (record { method = post; target = "/mine"; body = body })
              (record s { pending = [] })
            ≡ throws x
        thrown = rw (handler, e) refl

    pub dying_request_ends :
        (d : Death) → serve j rpc p (some miner) http_port "/mine" body ≡ dies d → NetworkEnds m d
    unfolding on_read handle_request handle_method
    dying_request_ends d e =
        completion_dies i s [] false (record { method = post; target = "/mine"; body = body }) d
          found reads died
      where
        died :
            on_read false
              (record { method = post; target = "/mine"; body = body })
              (record s { pending = [] })
            ≡ dies d
        died = rw (handler, e) refl
