-- ===== src/Service/Listener/Accepting.antt =====
-- One accept at a time, for the session that is started when it completes.
use blue_space.Prelude.{ℕ, ◌≡◌}
use blue_space.Prelude.Modify.{
  length-modify, get_elem?-modify_self, get_elem?-append_some, length-modify, get_elem?-modify_self,
  get_elem?-append_some,
}
use blue_space.Outcome.{done}
use blue_space.Service.Session.{async_read, Handler, Beast, async_read}
use blue_space.Service.Listener.{
  Network, running, completed, Asio, Listener, start_server, Network, running, completed,
}
use blue_space.Service.Listener.Steps.{IsAccepting, NetworkStep-IsAccepting}
use blue_space.Service.Listener.Opening.{start_server-IsAccepting}

-- Whatever the network does from the start on: exactly one accept is pending, for the session that
-- `new_session_` points to, which is not started; and every session has at most one operation
-- pending, and the server's handler for its requests unless it is not started.
pub one_accept_pending :
    (h : Handler) (asio : Asio) (b : Beast) (port : ℕ) (l m : Listener)
    → start_server asio h port ≡ done l
    → Network b l m
    → IsAccepting h m
one_accept_pending h asio b port l m e running = (start_server-IsAccepting h asio port l e).0
one_accept_pending h asio b port l m e (completed r s) =
    NetworkStep-IsAccepting h b _ m (one_accept_pending h asio b port l _ e r) s
