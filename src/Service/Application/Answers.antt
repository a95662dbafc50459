-- ===== src/Service/Application/Answers.antt =====
-- A request on one of the connections of a started application.
use blue_space.Prelude.{ℕ, ◌≡◌, String, some, [], ◌∷◌, get_elem?, inl, inr, subst}
use blue_space.Service.Rpc.{Values}
use blue_space.Service.Rpc.Server.{JsonRpc}
use blue_space.Service.Rest.{PropertyTree}
use blue_space.Service.Session.{Session, Handler, Beast, async_read, async_write, json_response}
use blue_space.Service.Listener.{Asio, Listener, new_session, NetworkStep}
use blue_space.Service.Listener.Steps.{IsServed}

-- A session that reads has the handler.
pub reading-handler :
    (h : Handler) (s : Session) → IsServed h s → s.pending ≡ async_read ∷ [] → s.on_request ≡ some h
reading-handler h s v e = elim v.handler [
  | inl at ↦ at
  | inr fresh ↦ absurd (idle (subst (λ u. u.pending ≡ async_read ∷ []) fresh e))
]
  where
    idle : ¬ (new_session.pending ≡ async_read ∷ [])
    idle f = absurd (cc f)

module _ (j : Values) (rpc : JsonRpc j) (p : PropertyTree) (asio : Asio) (b : Beast) where
  -- There is a step after which the session at i writes the reply, and a further one after which it
  -- is again as it was.
  abbrev pub Replies : Listener → ℕ → Session → String → Type 0
  Replies m i s reply =
      (n : Listener) × (t : Session) × (o : Listener) × NetworkStep b m n
      × (get_elem? n.sessions i ≡ some t)
      × (t.pending ≡ async_write (json_response reply) ∷ [])
      × NetworkStep b n o
      × (get_elem? o.sessions i ≡ some s)
