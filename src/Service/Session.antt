-- ===== src/Service/Session.antt =====
-- blue-space/lib/session.h and session.cpp: a connection. Its asynchronous operations are a list of
-- those that are pending; what they call on completion are steps. The handler of a pending operation
-- is what keeps the session alive: where a completion starts no other, the session is destroyed. A
-- string stands for its bytes.
pub mod Replies
pub mod Handlers
use Prim.Native.String.{len}
use blue_space.Prelude.{
  ℕ, Bool, true, false, String, Option, none, some, List, [], ◌∷◌, ◌++◌, ◌≡◌, if◌then◌else◌,
}
use blue_space.Outcome.{Outcome, done, throws, dies, ◌>>=◌}

-- The verbs that the code tells apart.
pub data Verb : Type 0 where
  options post other_verb : Verb

pub record Request : Type 0 where
  pub method : Verb
  pub target : String
  pub body : String

pub record Response : Type 0 where
  pub status : ℕ
  pub headers : List (String × String)
  pub body : String
  pub content_length : ℕ
  pub keep_alive : Bool

-- What of Boost.Beast decides whether the connection is closed after a response.
pub record Beast : Type 0 where
  pub need_eof : Response → Bool
  -- Not if it is to be kept alive; each response here has its length.
  pub need_eof_law : (r : Response) → r.keep_alive ≡ true → need_eof r ≡ false

pub data Operation : Type 0 where
  async_read : Operation
  async_write : Response → Operation

-- The handler returns what it passes to `send_response`, if it calls that.
pub record Session : Type 0 where
  pub on_request : Option (String → String → Outcome (Option String))
  pub pending : List Operation
  pub open_socket : Bool

abbrev pub Handler : Type 0
Handler = String → String → Outcome (Option String)

unfoldable pub set_request_handler : Handler → Session → Session
set_request_handler handler s = record s { on_request = some handler }

unfoldable pub start : Session → Session
start s = record s { pending = s.pending ++ async_read ∷ [] }

unfoldable pub stop : Session → Session
stop s = record s { open_socket = false }

unfoldable pub send_message : Response → Session → Session
send_message m s = record s { pending = s.pending ++ async_write m ∷ [] }

abbrev pub cors_headers : List (String × String)
cors_headers =
    ("Server", "blue-space")
    ∷ ("Access-Control-Allow-Origin", "*")
    ∷ ("Access-Control-Allow-Headers", "*")
    ∷ ("Access-Control-Allow-Methods", "*")
    ∷ []

abbrev pub cors_response : Response
cors_response = record {
  status = 200;
  headers = cors_headers;
  body = "";
  content_length = 0;
  keep_alive = true;
}

abbrev pub not_found : Response
not_found = record {
  status = 404;
  headers = ("Server", "blue-space") ∷ [];
  body = "";
  content_length = 0;
  keep_alive = true;
}

abbrev pub json_response : String → Response
json_response body = record {
  status = 200;
  headers = cors_headers ++ ("Content-Type", "application/json") ∷ [];
  body = body;
  content_length = len body;
  keep_alive = true;
}

unfoldable pub send_cors_response : Session → Session
send_cors_response s = send_message cors_response s

unfoldable pub send_not_found : Session → Session
send_not_found s = send_message not_found s

unfoldable pub send_response : String → Session → Session
send_response response s = send_message (json_response response) s

-- The handler's call back into the session, if it makes one.
unfoldable pub answer_with : Session → Option String → Session
answer_with s none = s
answer_with s (some response) = send_response response s

-- `handle_request`, by whether there is a handler and by the method.
unfoldable pub handle_method : Option Handler → Verb → Request → Session → Outcome Session
handle_method none method request s = done s
handle_method (some on_request) options request s = done (send_cors_response s)
handle_method (some on_request) post request s = do
  reply ← on_request request.target request.body
  done (answer_with s reply)
handle_method (some on_request) other_verb request s = done (send_not_found s)

unfoldable pub handle_request : Request → Session → Outcome Session
handle_request request s = handle_method s.on_request request.method request s

-- The completion of the read, with the message that the parser holds: after an error, too, that goes
-- to `handle_request`.
unfoldable pub on_read : Bool → Request → Session → Outcome Session
on_read error request s = handle_request request (if error then stop s else s)

-- The completion of a write.
unfoldable pub on_write : Beast → Bool → Response → Session → Session
on_write b error m s = if error then stop s else if b.need_eof m then stop s else start s

-- Where no handler of an operation holds the session any more, its destructor closes the socket.
unfoldable pub held_by : List Operation → Session → Session
held_by [] s = record s { open_socket = false }
held_by (operation ∷ operations) s = s

unfoldable pub release : Session → Session
release s = held_by s.pending s

-- One completion: the operation is pending no more, its handler runs and is destroyed.
pub data SessionStep (b : Beast) (s t : Session) : Type 0 where
  read_step :
      (rest : List Operation) (error : Bool) (request : Request) (handled : Session)
      → s.pending ≡ async_read ∷ rest
      → on_read error request (record s { pending = rest }) ≡ done handled
      → t ≡ release handled
      → SessionStep b s t
  write_step :
      (rest : List Operation) (error : Bool) (m : Response)
      → s.pending ≡ async_write m ∷ rest
      → t ≡ release (on_write b error m (record s { pending = rest }))
      → SessionStep b s t

pub data Sessions (b : Beast) (s : Session) : Session → Type 0 where
  accepted : Sessions b s (start s)
  completed : {t u : Session} → Sessions b s t → SessionStep b t u → Sessions b s u
