-- ===== src/Service/Application.antt =====
-- blue-space/include/application/application.h and lib/application.cpp: the servers put together.
pub mod Serving
pub mod Answers
pub mod Failures
use blue_space.Prelude.{ℕ, ◌%◌, ◌^◌, Bool, String, Option, none, some, List}
use blue_space.Outcome.{Outcome, done, dies, null_pointer, ◌>>=◌}
use blue_space.Service.Api.{Miner}
use blue_space.Service.Rpc.{Values}
use blue_space.Service.Rpc.Server.{
  JsonRpc, RpcServer, new_rpc_server, initialize_rpc, register_methods, dispatch,
}
use blue_space.Service.Rest.{PropertyTree, route}
use blue_space.Service.Session.{Handler}
use blue_space.Service.Listener.{Asio, Listener, start_server}

-- A call through a pointer: to the API of the REST server, and to the miner of the API.
unfoldable pub pointed_to : Option Miner → Miner
pointed_to none = record { mine = λ chunk rarity key found. dies null_pointer }
pointed_to (some miner) = miner

module _ (j : Values) (rpc : JsonRpc j) (p : PropertyTree) where
  -- `stateless` is the API, by its miner; `rest` is the API that the REST server has.
  pub record Application : Type 0 where
    pub http_port : ℕ
    pub stateless : Option Miner
    pub rpc_server : RpcServer j rpc
    pub rest : Option Miner

  unfoldable pub new_application : ℕ → Application
  new_application http_port = record {
    http_port = http_port;
    stateless = none;
    rpc_server = new_rpc_server j rpc;
    rest = none;
  }

  -- The miner may be a null pointer, which the API takes.
  unfoldable pub initialize_application : Option Miner → Application → Application
  initialize_application miner a =
      let api = pointed_to miner in
      record a {
        stateless = some api;
        rest = some api;
        rpc_server = register_methods j rpc (some api) (initialize_rpc j rpc a.rpc_server);
      }

  -- Server::handle_request on the two servers of the application.
  unfoldable pub application_handler : Application → Handler
  application_handler a path request =
      route p (dispatch j rpc a.rpc_server) (pointed_to a.rest) path request

  -- The port is an unsigned short from here on.
  unfoldable pub start_application : Asio → Application → Outcome Listener
  start_application asio a = start_server asio (application_handler a) (a.http_port % 2 ^ 16)
