-- ===== src/Service/Listener/Opening.antt =====
-- The listener that a started server has.
use blue_space.Prelude.{ℕ, ◌≡◌, refl, sym, ◌∙◌, true, some, subst}
use blue_space.Outcome.{Outcome, done, throws, dies, ◌>>=◌, done-injective, bind_assoc}
use blue_space.Service.Session.{Handler}
use blue_space.Service.Listener.{
  Acceptor, Asio, Listener, new_listener, initialize, set_new_session_handler, accept_one, is_open,
  start_listener, start_server,
}
use blue_space.Service.Listener.Steps.{IsAccepting, accept_one-IsAccepting}

-- The acceptor is there, for the port.
abbrev pub ListensOn : ℕ → Listener → Type 0
ListensOn port l = (a : Acceptor) × (l.acceptor ≡ some a) × (a.port ≡ port)

module _ (h : Handler) where
  abbrev served_by : Acceptor → ℕ → Outcome Listener
  served_by a port = start_listener (record (new_listener port) { acceptor = some a }) >>= λ l.
      done (set_new_session_handler h l)

  abbrev with_handler : Acceptor → ℕ → Listener
  with_handler a port = record (new_listener port) { acceptor = some a; on_new_session = some h }

  served_by-eq-done :
      (a : Acceptor) (port : ℕ)
      → a.is_open ≡ true
      → served_by a port ≡ done (accept_one (with_handler a port))
  unfolding start_listener set_new_session_handler new_listener accept_one
  served_by-eq-done a port o = rw o refl

  opened :
      (a : Acceptor) (port : ℕ)
      → (a.port ≡ port) × (a.is_open ≡ true)
      → let l = accept_one (with_handler a port) in IsAccepting h l × ListensOn port l
  unfolding new_listener accept_one is_open
  opened a port law =
      (accept_one-IsAccepting h (with_handler a port) law.1 refl refl tt, (a, refl, law.0))

  bound :
      (o : Outcome Acceptor) (port : ℕ) (l : Listener)
      → ((a : Acceptor) → o ≡ done a → (a.port ≡ port) × (a.is_open ≡ true))
      → o >>= (λ a. served_by a port) ≡ done l
      → IsAccepting h l × ListensOn port l
  bound (done a) port l law e =
      subst (λ m. IsAccepting h m × ListensOn port m)
        (done-injective (sym (served_by-eq-done a port (law a refl).1) ∙ e))
        (opened a port (law a refl))
  bound (throws x) port l law e = absurd (cc e)
  bound (dies x) port l law e = absurd (cc e)

  -- A server that starts listens on its port, and accepts.
  pub start_server-IsAccepting :
      (asio : Asio) (port : ℕ) (l : Listener)
      → start_server asio h port ≡ done l
      → IsAccepting h l × ListensOn port l
  unfolding start_server initialize new_listener
  start_server-IsAccepting asio port l e =
      bound (asio.make_acceptor port) port l (λ a f. asio.acceptor_law port a f)
        (sym (bind_assoc (asio.make_acceptor port) _ _) ∙ e)
