-- ===== src/Outcome.antt =====
-- How a call ends: it returns, it throws a C++ exception, or the process dies.
use blue_space.Prelude.{◌≡◌, ap, refl, String}

-- The exceptions that the code throws itself or lets through.
pub data Exception : Type 0 where
  -- jsonrpc::InvalidParametersFault
  invalid_parameters_fault : String → Exception
  -- jsonrpc::Fault
  fault : String → Exception
  -- boost::property_tree::ptree_error
  ptree_error : Exception
  -- CLI::ParseError
  parse_error : Exception
  -- std::invalid_argument
  invalid_argument : Exception
  -- boost::system::system_error
  system_error : Exception

-- What ends the process at once.
pub data Death : Type 0 where
  division_by_zero : Death
  exit_failure : Death
  assertion_failed : Death
  invalid_free : Death
  null_pointer : Death
  signed_overflow : Death
  -- An exception that nothing catches.
  terminate : Death

pub data Outcome {ℓ} (A : Type ℓ) : Type ℓ where
  done : A → Outcome A
  throws : Exception → Outcome A
  dies : Death → Outcome A

infixl 5 ◌>>=◌ ◌>>◌
abbrev pub ◌>>=◌ {ℓ κ} : {A : Type ℓ} {B : Type κ} → Outcome A → (A → Outcome B) → Outcome B
done a >>= f = f a
throws e >>= f = throws e
dies d >>= f = dies d

abbrev pub ◌>>◌ {ℓ} : {B : Type ℓ} → Outcome (Unit {0}) → Outcome B → Outcome B
m >> k = m >>= λ _. k

abbrev from_done {ℓ} : {A : Type ℓ} → A → Outcome A → A
from_done d (done a) = a
from_done d (throws e) = d
from_done d (dies e) = d

pub done-injective {ℓ} : {A : Type ℓ} {a b : A} → done a ≡ done b → a ≡ b
done-injective {a} e = ap (from_done a) e

pub bind_assoc {ℓ κ μ} :
    {A : Type ℓ} {B : Type κ} {C : Type μ} (m : Outcome A) (f : A → Outcome B) (k : B → Outcome C)
    → (m >>= f) >>= k ≡ m >>= λ a. f a >>= k
bind_assoc (done a) f k = refl
bind_assoc (throws e) f k = refl
bind_assoc (dies d) f k = refl

-- A sequence that returns has a first part that does.
pub bind_done {ℓ κ} :
    {A : Type ℓ} {B : Type κ} (m : Outcome A) (f : A → Outcome B) (b : B)
    → m >>= f ≡ done b
    → (a : A) × (m ≡ done a) × (f a ≡ done b)
bind_done (done a) f b e = (a, refl, e)
bind_done (throws x) f b e = absurd (cc e)
bind_done (dies d) f b e = absurd (cc e)
