-- ===== src/Tests/SessionExamples.antt =====
-- Instances for the session.
use blue_space.Prelude.{◌≡◌, refl, Bool, true, false, some}
use blue_space.Outcome.{done}
use blue_space.Service.Session.{Beast, Handler}

abbrev closing : Bool → Bool
closing true = false
closing false = true

pub closing_law : (keep_alive : Bool) → keep_alive ≡ true → closing keep_alive ≡ false
closing_law true e = refl
closing_law false e = absurd (cc e)

abbrev pub beast : Beast
beast = record {
  need_eof = λ r. closing r.keep_alive;
  need_eof_law = λ r e. closing_law r.keep_alive e;
}

-- Answers with the body of the request.
abbrev pub echo : Handler
echo target body = done (some body)
