-- ===== src/Service/Listener.antt =====
-- blue-space/lib/listener.h and listener.cpp, and `Server::start` in blue-space/lib/server.cpp: the
-- loop that accepts connections. A session is known by its place in the list of those made so far;
-- one whose accept has failed is dropped without a connection, and stays in the list as it was made.
pub mod Steps
pub mod Opening
pub mod Accepting
use blue_space.Prelude.{
  ℕ, ◌+◌, ◌%◌, ◌^◌, ◌≡◌, ◌≢◌, Bool, true, false, String, Option, none, some, List, [], ◌∷◌, ◌++◌,
  length, get_elem?, if◌then◌else◌,
}
use blue_space.Prelude.Modify.{modify}
use blue_space.Outcome.{
  Exception, invalid_argument, Death, terminate, Outcome, done, throws, dies, assertion_failed,
  ◌>>=◌,
}
use blue_space.Service.Session.{
  Operation, async_read, Request, on_read, Session, Handler, Beast, SessionStep,
  set_request_handler, start,
}

pub record Acceptor : Type 0 where
  pub port : ℕ
  pub is_open : Bool

-- What Boost.Asio does with an endpoint: it opens, binds and listens, or throws.
pub record Asio : Type 0 where
  pub make_acceptor : ℕ → Outcome Acceptor
  pub acceptor_law :
      (port : ℕ) (a : Acceptor) → make_acceptor port ≡ done a → (a.port ≡ port) × (a.is_open ≡ true)

-- The listener, the sessions and the accepts that are pending, each for the socket of a session.
pub record Listener : Type 0 where
  pub port : ℕ
  pub acceptor : Option Acceptor
  pub new_session : Option ℕ
  pub on_new_session : Option Handler
  pub sessions : List Session
  pub accepts : List ℕ

unfoldable pub new_listener : ℕ → Listener
new_listener port = record {
  port = port;
  acceptor = none;
  new_session = none;
  on_new_session = none;
  sessions = [];
  accepts = [];
}

-- Whether or not the address can be reused, that is all.
unfoldable pub initialize : Asio → Listener → Outcome Listener
initialize asio l = do
  acceptor ← asio.make_acceptor l.port
  done (record l { acceptor = some acceptor })

unfoldable pub set_new_session_handler : Handler → Listener → Listener
set_new_session_handler handler l = record l { on_new_session = some handler }

-- Session's constructor.
abbrev pub new_session : Session
new_session = record { on_request = none; pending = []; open_socket = true }

unfoldable pub accept_one : Listener → Listener
accept_one l = record l {
  new_session = some (length l.sessions);
  sessions = l.sessions ++ new_session ∷ [];
  accepts = l.accepts ++ length l.sessions ∷ [];
}

unfoldable pub is_open : Option Acceptor → Bool
is_open none = false
is_open (some a) = a.is_open

-- Listener::start.
unfoldable pub start_listener : Listener → Outcome Listener
start_listener l = elim l.acceptor [
  | none ↦ dies assertion_failed
  | some a ↦ done (if a.is_open then accept_one l else l)
]

-- The handler for new sessions sets the session's handler for requests.
unfoldable pub hand_over : Option Handler → Session → Session
hand_over none s = s
hand_over (some handler) s = set_request_handler handler s

-- `accept_one` has made the session before the accept completes.
unfoldable pub start_new : Option ℕ → Listener → Listener
start_new none l = l
start_new (some i) l = record l {
  sessions = modify i (λ s. start (hand_over l.on_new_session s)) l.sessions;
}

-- The completion of the accept. The listener is alive, as the server holds it.
unfoldable pub on_accept : Bool → Listener → Listener
on_accept error l =
    let started = if error then l else start_new l.new_session l in
    if is_open started.acceptor then accept_one started else started

-- Server::start up to `ioc->run()`: the port is an unsigned short, and the handler is set after
-- the first accept is pending.
unfoldable pub start_server : Asio → Handler → ℕ → Outcome Listener
start_server asio handler port = do
  initialized ← initialize asio (new_listener port)
  started ← start_listener initialized
  done (set_new_session_handler handler started)

-- `ioc->run()`: an accept completes, or an operation of a session.
pub data NetworkStep (b : Beast) (l m : Listener) : Type 0 where
  accept_step :
      (rest : List ℕ) (i : ℕ) (error : Bool)
      → l.accepts ≡ i ∷ rest
      → m ≡ on_accept error (record l { accepts = rest })
      → NetworkStep b l m
  session_step :
      (i : ℕ) (s t : Session)
      → get_elem? l.sessions i ≡ some s
      → SessionStep b s t
      → m ≡ record l { sessions = modify i (λ _. t) l.sessions }
      → NetworkStep b l m

pub data Network (b : Beast) (l : Listener) : Listener → Type 0 where
  running : Network b l l
  completed : {m n : Listener} → Network b l m → NetworkStep b m n → Network b l n

-- What leaves `ioc->run()` and with it the program, other than by std::invalid_argument, which
-- `main` catches: a completion of a session throws, or the process dies in it.
pub data NetworkEnds (l : Listener) : Death → Type 0 where
  completion_throws :
      (i : ℕ) (s : Session) (rest : List Operation) (error : Bool) (request : Request)
      (x : Exception)
      → get_elem? l.sessions i ≡ some s
      → s.pending ≡ async_read ∷ rest
      → on_read error request (record s { pending = rest }) ≡ throws x
      → x ≢ invalid_argument
      → NetworkEnds l terminate
  completion_dies :
      (i : ℕ) (s : Session) (rest : List Operation) (error : Bool) (request : Request) (d : Death)
      → get_elem? l.sessions i ≡ some s
      → s.pending ≡ async_read ∷ rest
      → on_read error request (record s { pending = rest }) ≡ dies d
      → NetworkEnds l d
