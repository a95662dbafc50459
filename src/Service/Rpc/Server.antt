-- ===== src/Service/Rpc/Server.antt =====
-- blue-space/include/application/rpc/server.h and lib/rpc/server.cpp, and `register_methods` in
-- lib/rpc/stateless.cpp: the methods that the dispatcher of jsonrpc-lean calls.
use blue_space.Prelude.{Bool, true, false, String, Option, List, ◌≡◌}
use blue_space.Outcome.{Outcome, done, throws, Exception, invalid_parameters_fault}
use blue_space.Service.Api.{Miner}
use blue_space.Service.Rpc.{Values, call_method}

-- jsonrpc::Server. Calls request name params: the text asks for that method with those parameters.
pub record JsonRpc (j : Values) : Type 1 where
  pub Dispatcher : Type 0
  pub empty : Dispatcher
  pub add_method : String → (List j.Value → Outcome j.Value) → Dispatcher → Dispatcher
  -- With or without a handler for the format.
  pub handle_request : Bool → Dispatcher → String → Outcome String
  pub Calls : String → String → List j.Value → Type 0
  pub success : String → j.Value → String
  pub failure : String → Exception → String
  -- The method that was added is called, and what it returns is the result of the response.
  pub result_law :
      (d : Dispatcher) (name : String) (method : List j.Value → Outcome j.Value) (request : String)
      (params : List j.Value) (v : j.Value)
      → Calls request name params
      → method params ≡ done v
      → handle_request true (add_method name method d) request ≡ done (success request v)
  -- A fault of the method is reported in the response.
  pub fault_law :
      (d : Dispatcher) (name : String) (method : List j.Value → Outcome j.Value) (request : String)
      (params : List j.Value) (message : String)
      → Calls request name params
      → method params ≡ throws (invalid_parameters_fault message)
      → handle_request true (add_method name method d) request
        ≡ done (failure request (invalid_parameters_fault message))

module _ (j : Values) (rpc : JsonRpc j) where
  -- `has_format_handler`: json_format_handler_ is registered.
  pub record RpcServer : Type 0 where
    pub has_format_handler : Bool
    pub dispatcher : rpc.Dispatcher

  unfoldable pub new_rpc_server : RpcServer
  new_rpc_server = record { has_format_handler = false; dispatcher = rpc.empty }

  unfoldable pub initialize_rpc : RpcServer → RpcServer
  initialize_rpc s = record s { has_format_handler = true }

  unfoldable pub register_method : String → (List j.Value → Outcome j.Value) → RpcServer → RpcServer
  register_method name method s = record s { dispatcher = rpc.add_method name method s.dispatcher }

  -- The API is what the weak pointer of the method leads to.
  unfoldable pub register_methods : Option Miner → RpcServer → RpcServer
  register_methods api s = register_method "stateless_mine" (call_method j api) s

  -- rpc_server_.HandleRequest
  unfoldable pub dispatch : RpcServer → String → Outcome String
  dispatch s request = rpc.handle_request s.has_format_handler s.dispatcher request
