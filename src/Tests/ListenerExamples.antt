-- ===== src/Tests/ListenerExamples.antt =====
-- The theorems on the listener, from its start on.
use blue_space.Prelude.Modify.{modify}
use blue_space.Prelude.{ℕ, ◌≡◌, refl, sym, ap, true, false, some, [], ◌∷◌}
use blue_space.Outcome.{done, done-injective}
use blue_space.Service.Listener.{
  Acceptor, Asio, Listener, new_session, start_server, initialize, new_listener, start_listener,
  set_new_session_handler, accept_one, is_open, on_accept, start_new, accept_step, Network, running,
  completed,
}
use blue_space.Service.Listener.Steps.{IsAccepting}
use blue_space.Service.Listener.Accepting.{one_accept_pending}
use blue_space.Tests.SessionExamples.{beast, echo}

-- Any port can be bound.
abbrev pub acceptor : ℕ → Acceptor
acceptor port = record { port = port; is_open = true }

pub acceptor_law :
    (port : ℕ) (a : Acceptor) → done (acceptor port) ≡ done a → (a.port ≡ port) × (a.is_open ≡ true)
acceptor_law port a e =
    let same = sym (done-injective e) in (ap (λ b. b.port) same, ap (λ b. b.is_open) same)

abbrev pub asio : Asio
asio = record { make_acceptor = λ port. done (acceptor port); acceptor_law = acceptor_law }

abbrev first : Listener
first = record {
  port = 8000;
  acceptor = some (acceptor 8000);
  new_session = some 0;
  on_new_session = some echo;
  sessions = new_session ∷ [];
  accepts = 0 ∷ [];
}

starts : start_server asio echo 8000 ≡ done first
unfolding start_server initialize new_listener start_listener set_new_session_handler accept_one
    is_open
starts = refl

-- After the first accept.
abbrev second : Listener
second = on_accept false (record first { accepts = [] })

one_accept : Network beast first second
one_accept = completed running (accept_step [] 0 false refl refl)

second_has_two : second.accepts ≡ 1 ∷ []
unfolding on_accept is_open start_new accept_one modify
second_has_two = refl

one_accept_pending_example : IsAccepting echo second
one_accept_pending_example = one_accept_pending echo asio beast 8000 first second starts one_accept
