-- ===== src/Service/Listener/Steps.antt =====
-- What the listener and its sessions keep to, and that no step of the network breaks it.
use blue_space.Prelude.{
  ℕ, ◌≤◌, ◌≡◌, ◌≢◌, refl, sym, ap, ◌∙◌, arith, Bool, true, false, some, [], ◌∷◌, ◌++◌, length,
  get_elem?, All, inl, inr, ◌⊎◌, subst, if◌then◌else◌,
}
use blue_space.Prelude.Modify.{
  modify, get_elem?-modify_ne, get_elem?-append_last, All-modify, All-append_one, All-get_elem?,
}
use blue_space.Service.Session.{
  set_request_handler, Session, Handler, Beast, SessionStep, read_step, write_step, start,
}
use blue_space.Service.Session.Replies.{step-AtMostOne}
use blue_space.Service.Session.Handlers.{SessionStep-handler}
use mathlib.Core.Option.{some-injective}
use blue_space.Service.Listener.{
  Listener, new_session, accept_one, is_open, hand_over, start_new, on_accept, NetworkStep,
  accept_step, session_step,
}

-- The session has at most one operation pending; it has the handler, or is not started.
pub record IsServed (h : Handler) (s : Session) : Type 0 where
  pub at_most_one : length s.pending ≤ 1
  pub handler : (s.on_request ≡ some h) ⊎ (s ≡ new_session)

-- One accept is pending, for the session of `new_session_`, which is not started.
pub record IsAccepting (h : Handler) (l : Listener) : Type 0 where
  pub open_acceptor : is_open l.acceptor ≡ true
  pub handler : l.on_new_session ≡ some h
  pub place : ℕ
  pub one_accept : l.accepts ≡ place ∷ []
  pub same_session : l.new_session ≡ some place
  pub fresh : get_elem? l.sessions place ≡ some new_session
  pub served : All (IsServed h) l.sessions

module _ (h : Handler) where
  new_session-IsServed : IsServed h new_session
  new_session-IsServed = record { at_most_one = omega arith; handler = inr refl }

  pub accept_one-IsAccepting :
      (l : Listener)
      → is_open l.acceptor ≡ true
      → l.on_new_session ≡ some h
      → l.accepts ≡ []
      → All (IsServed h) l.sessions
      → IsAccepting h (accept_one l)
  unfolding accept_one
  accept_one-IsAccepting l o e q v = record {
    open_acceptor = o;
    handler = e;
    place = length l.sessions;
    one_accept = ap (λ xs. xs ++ length l.sessions ∷ []) q;
    same_session = refl;
    fresh = get_elem?-append_last l.sessions new_session;
    served = All-append_one (IsServed h) l.sessions new_session v new_session-IsServed;
  }

  start_new-IsServed : (s : Session) → s ≡ new_session → IsServed h (start (hand_over (some h) s))
  unfolding start hand_over set_request_handler
  start_new-IsServed s e = rw e (record { at_most_one = omega arith; handler = inl refl })

  -- The session of the accept, with the handler and reading.
  abbrev pub started : (l : Listener) → IsAccepting h l → Listener
  started l v = record l {
    sessions = modify v.place (λ s. start (hand_over (some h) s)) l.sessions;
    accepts = [];
  }

  start_new-started :
      (l : Listener) (v : IsAccepting h l)
      → start_new l.new_session (record l { accepts = [] }) ≡ started l v
  unfolding start_new
  start_new-started l v =
      ap (λ o. start_new o (record l { accepts = [] })) v.same_session
      ∙ ap
          (λ o. record l {
            sessions = modify v.place (λ s. start (hand_over o s)) l.sessions;
            accepts = [];
          })
          v.handler

  pub on_accept-started :
      (l : Listener) (v : IsAccepting h l)
      → on_accept false (record l { accepts = [] }) ≡ accept_one (started l v)
  unfolding on_accept
  on_accept-started l v =
      ap (λ k. if is_open k.acceptor then accept_one k else k) (start_new-started l v) ∙ opened
    where
      opened :
          (if is_open (started l v).acceptor then accept_one (started l v) else started l v)
          ≡ accept_one (started l v)
      opened = rw v.open_acceptor refl

  on_accept-IsAccepting :
      (error : Bool) (l : Listener)
      → IsAccepting h l
      → IsAccepting h (on_accept error (record l { accepts = [] }))
  unfolding on_accept
  on_accept-IsAccepting true l v =
      rw v.open_acceptor
        (accept_one-IsAccepting (record l { accepts = [] }) v.open_acceptor v.handler refl v.served)
  on_accept-IsAccepting false l v = subst (IsAccepting h) (sym (on_accept-started l v)) (
      accept_one-IsAccepting (started l v) v.open_acceptor v.handler refl (
        All-modify (IsServed h) v.place (λ s. start (hand_over (some h) s)) l.sessions v.served
          (λ s found _. start_new-IsServed s (some-injective _ _ (sym found ∙ v.fresh)))))

  new_session-quiet : (b : Beast) (t : Session) → ¬ SessionStep b new_session t
  new_session-quiet b t (read_step rest error request handled p r f) = absurd (cc p)
  new_session-quiet b t (write_step rest error m p r) = absurd (cc p)

  SessionStep-IsServed :
      (b : Beast) (s t : Session) → IsServed h s → SessionStep b s t → IsServed h t
  SessionStep-IsServed b s t v step = elim v.handler [
    | inl e ↦ record {
      at_most_one = step-AtMostOne b s t v.at_most_one step;
      handler = inl (SessionStep-handler b s t step ∙ e);
    }
    | inr e ↦ absurd (new_session-quiet b t (subst (λ u. SessionStep b u t) e step))
  ]

  pub NetworkStep-IsAccepting :
      (b : Beast) (l m : Listener) → IsAccepting h l → NetworkStep b l m → IsAccepting h m
  NetworkStep-IsAccepting b l m v (accept_step rest i error p e) = subst (IsAccepting h) (sym e) (
      subst (λ r. IsAccepting h (on_accept error (record l { accepts = r })))
        (cc (sym v.one_accept ∙ p)) (on_accept-IsAccepting error l v))
  NetworkStep-IsAccepting b l m v (session_step i s t found step e) =
      subst (IsAccepting h) (sym e) (record {
        open_acceptor = v.open_acceptor;
        handler = v.handler;
        place = v.place;
        one_accept = v.one_accept;
        same_session = v.same_session;
        fresh = get_elem?-modify_ne i v.place (λ _. t) l.sessions elsewhere ∙ v.fresh;
        served =
            All-modify (IsServed h) i (λ _. t) l.sessions v.served
              (λ u at w.
                SessionStep-IsServed b s t
                  (All-get_elem? (IsServed h) l.sessions i s v.served found) step);
      })
    where
      elsewhere : i ≢ v.place
      elsewhere same = new_session-quiet b t (
          subst (λ u. SessionStep b u t)
            (some-injective _ _ (sym found ∙ ap (get_elem? l.sessions) same ∙ v.fresh)) step)
