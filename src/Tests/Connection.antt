-- ===== src/Tests/Connection.antt =====
-- An application that has started with a miner, and has one connection.
use blue_space.Prelude.{◌≡◌, refl, true, false, some, [], ◌∷◌, get_elem?}
use blue_space.Prelude.Modify.{modify}
use blue_space.Outcome.{done}
use blue_space.Service.Api.{Miner}
use blue_space.Service.Rest.{PropertyTree}
use blue_space.Service.Session.{Session, Handler, async_read, start, set_request_handler}
use blue_space.Service.Listener.{
  Listener, new_session, start_server, initialize, new_listener, start_listener,
  set_new_session_handler, accept_one, is_open, on_accept, start_new, hand_over, accept_step,
  running, completed, Network,
}
use blue_space.Service.Application.{new_application, initialize_application, start_application}
use blue_space.Service.Application.Serving.{serve}
use blue_space.Tests.SessionExamples.{beast}
use blue_space.Tests.ListenerExamples.{asio, acceptor}
use blue_space.Tests.ServiceExamples.{values}
use blue_space.Tests.RpcModel.{json_rpc}

module _ (p : PropertyTree) (miner : Miner) where
  abbrev pub handler : Handler
  handler = serve values json_rpc p (some miner) 8000

  abbrev pub listening : Listener
  listening = record {
    port = 8000;
    acceptor = some (acceptor 8000);
    new_session = some 0;
    on_new_session = some handler;
    sessions = new_session ∷ [];
    accepts = 0 ∷ [];
  }

  pub begun :
      start_application values json_rpc p asio (
        initialize_application values json_rpc p
          (some miner)
          (new_application values json_rpc p 8000))
      ≡ done listening
  unfolding start_application initialize_application new_application start_server initialize
      new_listener start_listener set_new_session_handler accept_one is_open
  begun = refl

  abbrev pub connected : Listener
  connected = on_accept false (record listening { accepts = [] })

  abbrev pub session : Session
  session = record { on_request = some handler; pending = async_read ∷ []; open_socket = true }

  pub one_connection : Network beast listening connected
  one_connection = completed running (accept_step [] 0 false refl refl)

  pub reads : get_elem? connected.sessions 0 ≡ some session
  unfolding on_accept is_open start_new accept_one modify hand_over start set_request_handler
  reads = refl
