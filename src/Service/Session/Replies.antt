-- ===== src/Service/Session/Replies.antt =====
-- One operation at a time, and one reply to each request that gets one.
use blue_space.Prelude.{
  ◌≤◌, Bool, true, false, String, Option, none, some, List, [], ◌∷◌, ◌≡◌, refl, sym, ap, inl, inr,
  length, arith, subst, Bool-cases,
}
use blue_space.Outcome.{Outcome, done, throws, dies, done-injective, ◌>>=◌}
use blue_space.Service.Session.{
  Verb, options, post, other_verb, Request, Response, Beast, Operation, async_read, async_write,
  Session, start, stop, send_message, not_found, cors_response, json_response, send_cors_response,
  send_not_found, send_response, answer_with, Handler, handle_method, handle_request, on_read,
  on_write, held_by, release, SessionStep, read_step, write_step, Sessions, accepted, completed,
}

abbrev pub AtMostOne : Session → Type 0
AtMostOne s = length s.pending ≤ 1

-- With nothing pending.
abbrev pub IsQuiet : Session → Type 0
IsQuiet s = s.pending ≡ []

send_message-AtMostOne : (m : Response) (s : Session) → IsQuiet s → AtMostOne (send_message m s)
unfolding send_message
send_message-AtMostOne m s q = rw q (omega arith)

answer_with-AtMostOne :
    (s : Session) (reply : Option String) → IsQuiet s → AtMostOne (answer_with s reply)
unfolding answer_with send_response
answer_with-AtMostOne s none q = rw q (omega arith)
answer_with-AtMostOne s (some r) q = send_message-AtMostOne (json_response r) s q

replied :
    (o : Outcome (Option String)) (s t : Session)
    → IsQuiet s
    → o >>= (λ reply. done (answer_with s reply)) ≡ done t
    → AtMostOne t
replied (done reply) s t q e = subst AtMostOne (done-injective e) (answer_with-AtMostOne s reply q)
replied (throws x) s t q e = absurd (cc e)
replied (dies x) s t q e = absurd (cc e)

handle_method-AtMostOne :
    (h : Option Handler) (v : Verb) (request : Request) (s t : Session)
    → IsQuiet s
    → handle_method h v request s ≡ done t
    → AtMostOne t
unfolding handle_method send_cors_response send_not_found
handle_method-AtMostOne none v request s t q e =
    subst AtMostOne (done-injective e) (rw q (omega arith))
handle_method-AtMostOne (some h) options request s t q e =
    subst AtMostOne (done-injective e) (send_message-AtMostOne cors_response s q)
handle_method-AtMostOne (some h) post request s t q e =
    replied (h request.target request.body) s t q e
handle_method-AtMostOne (some h) other_verb request s t q e =
    subst AtMostOne (done-injective e) (send_message-AtMostOne not_found s q)

on_read-AtMostOne :
    (error : Bool) (request : Request) (s t : Session)
    → IsQuiet s
    → on_read error request s ≡ done t
    → AtMostOne t
unfolding on_read handle_request stop
on_read-AtMostOne true request s t q e =
    handle_method-AtMostOne s.on_request request.method request (stop s) t q e
on_read-AtMostOne false request s t q e =
    handle_method-AtMostOne s.on_request request.method request s t q e

on_write-AtMostOne :
    (b : Beast) (error : Bool) (m : Response) (s : Session)
    → IsQuiet s
    → AtMostOne (on_write b error m s)
unfolding on_write start stop
on_write-AtMostOne b true m s q = rw q (omega arith)
on_write-AtMostOne b false m s q = elim (Bool-cases (b.need_eof m)) [
  | inl e ↦ rw (e, q) (omega arith)
  | inr e ↦ rw (e, q) (omega arith)
]

last_one : {a : Operation} (ops rest : List Operation) → ops ≡ a ∷ rest → length ops ≤ 1 → rest ≡ []
last_one ops [] e h = refl
last_one {a} ops (r ∷ rest) e h = absurd (omega (arith, ap length e))

held_by-pending :
    (operations : List Operation) (s : Session) → (held_by operations s).pending ≡ s.pending
unfolding held_by
held_by-pending [] s = refl
held_by-pending (operation ∷ operations) s = refl

release-pending : (s : Session) → (release s).pending ≡ s.pending
unfolding release
release-pending s = held_by-pending s.pending s

release-AtMostOne : (s : Session) → AtMostOne s → AtMostOne (release s)
release-AtMostOne s h = subst (λ (ops : List Operation). length ops ≤ 1) (sym (release-pending s)) h

-- A pending operation holds the session.
pub release-held :
    (s : Session) (op : Operation) (ops : List Operation) → s.pending ≡ op ∷ ops → release s ≡ s
unfolding release held_by
release-held s op ops e = ap (λ operations. held_by operations s) e

pub step-AtMostOne : (b : Beast) (s t : Session) → AtMostOne s → SessionStep b s t → AtMostOne t
step-AtMostOne b s t h (read_step rest error request handled e r f) = subst AtMostOne (sym f) (
    release-AtMostOne handled (
      on_read-AtMostOne error request (record s { pending = rest }) handled
        (last_one s.pending rest e h) r))
step-AtMostOne b s t h (write_step rest error m e r) = subst AtMostOne (sym r) (
    release-AtMostOne (on_write b error m (record s { pending = rest }))
      (on_write-AtMostOne b error m (record s { pending = rest }) (last_one s.pending rest e h)))

-- From a new connection with nothing pending, no sequence of completions, with errors or without,
-- leads to two operations that are pending at a time.
pub at_most_one_pending :
    (b : Beast) (s t : Session) → s.pending ≡ [] → Sessions b s t → length t.pending ≤ 1
unfolding start
at_most_one_pending b s t q accepted = rw q (omega arith)
at_most_one_pending b s t q (completed {t = u} r step) =
    step-AtMostOne b u t (at_most_one_pending b s u q r) step

-- A POST to which the handler passes a response gets it, as JSON with its length; once that is
-- written the session is as it was, reading the next request.
pub served :
    (b : Beast) (s : Session) (h : Handler) (target body response : String)
    → s.on_request ≡ some h
    → s.pending ≡ async_read ∷ []
    → h target body ≡ done (some response)
    → (t : Session) × (on_read false
          (record { method = post; target = target; body = body })
          (record s { pending = [] })
        ≡ done t)
      × (t.pending ≡ async_write (json_response response) ∷ [])
      × (on_write b false (json_response response) (record t { pending = [] }) ≡ s)
unfolding on_read handle_request handle_method answer_with send_response send_message on_write start
served b s h target body response eh q e = (
  record s { pending = async_write (json_response response) ∷ [] },
  rw (eh, e) refl,
  refl,
  rw (b.need_eof_law (json_response response) refl)
      (λ i. record { on_request = s.on_request; pending = sym q i; open_socket = s.open_socket }),
)

-- A POST to which the handler passes no response ends the session: the socket is closed, and no
-- completion follows.
pub unanswered :
    (b : Beast) (s : Session) (h : Handler) (target body : String)
    → s.on_request ≡ some h
    → s.pending ≡ async_read ∷ []
    → h target body ≡ done none
    → (t : Session) × SessionStep b s t
      × (t.open_socket ≡ false)
      × ((u : Session) → ¬ SessionStep b t u)
unfolding on_read handle_request handle_method answer_with release held_by
unanswered b s h target body eh q e = (
  record s { pending = []; open_socket = false },
  read_step [] false (record { method = post; target = target; body = body })
      (record s { pending = [] }) q (rw (eh, e) refl) refl,
  refl,
  quiet_stays,
)
  where
    quiet_stays : (u : Session) → ¬ SessionStep b (record s { pending = []; open_socket = false }) u
    quiet_stays u (read_step rest error request handled p r f) = absurd (cc p)
    quiet_stays u (write_step rest error m p r) = absurd (cc p)
