-- ===== src/Service/Session/Handlers.antt =====
-- The handler of a session stays the one that it was given.
use blue_space.Prelude.{
  ◌≡◌, refl, sym, ap, ◌∙◌, Bool, true, false, String, Option, none, some, List, [], ◌∷◌, inl, inr,
  Bool-cases,
}
use blue_space.Outcome.{Outcome, done, throws, dies, ◌>>=◌, done-injective}
use blue_space.Service.Session.{
  Session, Handler, Beast, Verb, options, post, other_verb, Request, Response, SessionStep,
  read_step, write_step, start, stop, send_message, send_response, send_cors_response,
  send_not_found, answer_with, handle_method, handle_request, on_read, on_write, Operation, held_by,
  release,
}

abbrev request_handler : Session → Option Handler
request_handler s = s.on_request

replied-handler :
    (o : Outcome (Option String)) (s t : Session)
    → o >>= (λ reply. done (answer_with s reply)) ≡ done t
    → t.on_request ≡ s.on_request
unfolding answer_with send_response send_message
replied-handler (done none) s t e = ap request_handler (sym (done-injective e))
replied-handler (done (some r)) s t e = ap request_handler (sym (done-injective e))
replied-handler (throws x) s t e = absurd (cc e)
replied-handler (dies x) s t e = absurd (cc e)

handle_method-handler :
    (h : Option Handler) (v : Verb) (request : Request) (s t : Session)
    → handle_method h v request s ≡ done t
    → t.on_request ≡ s.on_request
unfolding handle_method send_cors_response send_not_found send_message
handle_method-handler none v request s t e = ap request_handler (sym (done-injective e))
handle_method-handler (some h) options request s t e = ap request_handler (sym (done-injective e))
handle_method-handler (some h) post request s t e =
    replied-handler (h request.target request.body) s t e
handle_method-handler (some h) other_verb request s t e =
    ap request_handler (sym (done-injective e))

on_read-handler :
    (error : Bool) (request : Request) (s t : Session)
    → on_read error request s ≡ done t
    → t.on_request ≡ s.on_request
unfolding on_read handle_request stop
on_read-handler true request s t e =
    handle_method-handler s.on_request request.method request (stop s) t e
on_read-handler false request s t e =
    handle_method-handler s.on_request request.method request s t e

on_write-handler :
    (b : Beast) (error : Bool) (m : Response) (s : Session)
    → (on_write b error m s).on_request ≡ s.on_request
unfolding on_write start stop
on_write-handler b true m s = refl
on_write-handler b false m s = elim (Bool-cases (b.need_eof m)) [
  | inl e ↦ rw e refl
  | inr e ↦ rw e refl
]

held_by-handler :
    (operations : List Operation) (s : Session) → (held_by operations s).on_request ≡ s.on_request
unfolding held_by
held_by-handler [] s = refl
held_by-handler (operation ∷ operations) s = refl

release-handler : (s : Session) → (release s).on_request ≡ s.on_request
unfolding release
release-handler s = held_by-handler s.pending s

-- No completion changes the session's handler.
pub SessionStep-handler :
    (b : Beast) (s t : Session) → SessionStep b s t → t.on_request ≡ s.on_request
SessionStep-handler b s t (read_step rest error request handled e r f) =
    ap request_handler f
    ∙ release-handler handled
    ∙ on_read-handler error request (record s { pending = rest }) handled r
SessionStep-handler b s t (write_step rest error m e r) =
    ap request_handler r
    ∙ release-handler (on_write b error m (record s { pending = rest }))
    ∙ on_write-handler b error m (record s { pending = rest })
