-- ===== src/Tests/RpcModel.antt =====
-- A model of jsonrpc::Server, for the values of the tests.
use blue_space.Prelude.{◌≡◌, sym, ap, ◌∙◌, Bool, true, false, String, List, [], ◌∷◌, if◌then◌else◌}
use blue_space.Prelude.Int.{pos, negsuc}
use blue_space.Outcome.{Outcome, done, throws, dies}
use blue_space.Service.Rest.{same_string}
use blue_space.Service.Rpc.Server.{JsonRpc}
use blue_space.Tests.ServiceExamples.{Json, number, values}

abbrev Method : Type 0
Method = List Json → Outcome Json

abbrev sample_params : List Json
sample_params =
    number (negsuc 80)
    ∷ number (pos 13)
    ∷ number (pos 1)
    ∷ number (pos 16384)
    ∷ number (pos 420)
    ∷ []

-- The parameters of a request: none for one text, and five for any other.
unfoldable pub params_of : String → List Json
params_of request = if same_string request "no params" then [] else sample_params

abbrev reply : Outcome Json → Outcome String
reply (done v) = done "result"
reply (throws x) = done "fault"
reply (dies d) = dies d

-- Calls the method that was added last.
abbrev call_last : List (String × Method) → String → Outcome String
call_last [] request = done "no method"
call_last ((name, method) ∷ rest) request = reply (method (params_of request))

abbrev handle : Bool → List (String × Method) → String → Outcome String
handle true d request = call_last d request
handle false d request = done "no format"

abbrev pub json_rpc : JsonRpc values
json_rpc = record {
  Dispatcher = List (String × Method);
  empty = [];
  add_method = λ name method d. (name, method) ∷ d;
  handle_request = handle;
  Calls = λ request name params. params ≡ params_of request;
  success = λ request v. "result";
  failure = λ request x. "fault";
  result_law = λ d name method request params v same e. ap reply (ap method (sym same) ∙ e);
  fault_law = λ d name method request params message same e. ap reply (ap method (sym same) ∙ e);
}
