-- ===== src/Trace/Program.antt =====
-- Code that makes agent calls, reads the thread's current span, asks the outside world and may
-- throw. The number that a program is given is the count of open span events; the log is what the
-- code sent to the agent.
use pinpoint_cpp_examples.Common.{
  ℕ, suc, ◌≡◌, refl, ◌⊎◌, inl, inr, Bool, Option, List, [], ◌∷◌, ◌++◌, Text, if◌then◌else◌,
}
use pinpoint_cpp_examples.Trace.{Call, ServiceType, new_event, end_event}

-- `e.what()` of a `mysqlx::Error` or of another `std::exception`.
pub data Exception : Type 0 where
  mysqlx_error : Text → Exception
  std_exception : Text → Exception

abbrev pub what : Exception → Text
what (mysqlx_error message) = message
what (std_exception message) = message

-- What code outside the repository gives back.
pub data Answer (A : Type 0) : Type 0 where
  value : A → Answer A
  throws : Exception → Answer A

pub Answer-cases :
    {A : Type 0} (r : Answer A) → ((a : A) × r ≡ value a) ⊎ ((x : Exception) × r ≡ throws x)
Answer-cases (value a) = inl (a, refl)
Answer-cases (throws x) = inr (x, refl)

-- `fault` is undefined behaviour, such as a call through a null pointer: nothing runs after it.
pub data Outcome (A : Type 0) : Type 0 where
  returned : A → Outcome A
  thrown : Exception → Outcome A
  fault : Outcome A

abbrev pub NoFault : {A : Type 0} → Outcome A → Type 0
NoFault (returned a) = Unit {0}
NoFault (thrown e) = Unit {0}
NoFault fault = ⊥

-- `current` is the thread-local `current_span` (`g_current_span`), `env` all else that the code asks.
pub record World (W : Type 0) : Type 0 where
  pub current : Option ℕ
  pub env : W

pub record Run (W A : Type 0) : Type 0 where
  pub log : List Call
  pub out : Outcome A
  pub world : World W

abbrev pub Program : Type 0 → Type 0 → Type 0
Program W A = ℕ → World W → Run W A

module _ {A : Type 0} where
  abbrev pub outcome : Answer A → Outcome A
  outcome (value a) = returned a
  outcome (throws e) = thrown e

  -- Destructors run on return and on throw.
  abbrev pub closing : Outcome A → ℕ → List Call
  closing (returned a) d = end_event d ∷ []
  closing (thrown e) d = end_event d ∷ []
  closing fault d = []

module _ {W A : Type 0} where
  unfoldable pub pure : A → Program W A
  pure a d w = record { log = []; out = returned a; world = w }

  unfoldable pub raise : Exception → Program W A
  raise e d w = record { log = []; out = thrown e; world = w }

  -- A call of code outside the repository: its answer is the environment's.
  unfoldable pub ask : (W → Answer A × W) → Program W A
  ask f d w =
      let (r, env) = f w.env in record { log = []; out = outcome r; world = record w { env = env } }

  -- The scope of a `ScopedSpanEvent`.
  unfoldable pub scoped : Option ℕ → Text → ServiceType → (ℕ → Program W A) → Program W A
  scoped s name type body d w =
      let r = body d (suc d) w in
      record r { log = new_event s d name type ∷ (r.log ++ closing r.out d) }

  abbrev pub caught : Outcome A → List Call → World W → (Exception → World W → Run W A) → Run W A
  caught (returned a) log w handler = record { log = log; out = returned a; world = w }
  caught (thrown e) log w handler = let t = handler e w in record t { log = log ++ t.log }
  caught fault log w handler = record { log = log; out = fault; world = w }

  -- `try { m } catch (const std::exception& e) { handler }`.
  unfoldable pub try_catch : Program W A → (Exception → Program W A) → Program W A
  try_catch m handler d w = let r = m d w in caught r.out r.log r.world (λ e. handler e d)

module _ {W : Type 0} where
  -- A call through a pointer: a fault unless it is set.
  unfoldable pub need : (W → Bool) → Program W (Unit {0})
  need is_set d w = record {
    log = [];
    out = if is_set w.env then returned tt else fault;
    world = w;
  }

  unfoldable pub emit : Call → Program W (Unit {0})
  emit c d w = record { log = c ∷ []; out = returned tt; world = w }

  -- `get_span_context()` and `set_span_context(span)`.
  unfoldable pub get_span_context : Program W (Option ℕ)
  get_span_context d w = record { log = []; out = returned w.current; world = w }

  unfoldable pub set_span_context : Option ℕ → Program W (Unit {0})
  set_span_context s d w = record { log = []; out = returned tt; world = record w { current = s } }

module _ {W A B : Type 0} where
  abbrev pub continue : Outcome A → List Call → World W → (A → World W → Run W B) → Run W B
  continue (returned a) log w f = let t = f a w in record t { log = log ++ t.log }
  continue (thrown e) log w f = record { log = log; out = thrown e; world = w }
  continue fault log w f = record { log = log; out = fault; world = w }

  infixl 5 ◌>>=◌ ◌>>◌
  -- Opening this opens the programs above too.
  unfoldable pub ◌>>=◌ : Program W A → (A → Program W B) → Program W B
  unfolding pure raise ask need scoped try_catch emit get_span_context set_span_context
  ◌>>=◌ m f d w = let r = m d w in continue r.out r.log r.world (λ a. f a d)

  abbrev pub ◌>>◌ : Program W A → Program W B → Program W B
  m >> n = m >>= λ _. n
