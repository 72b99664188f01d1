-- ===== src/Trace/Protocol.antt =====
-- The discipline of spans: one span at a time on a thread, its events opened and closed like
-- brackets, nothing said to an event that is closed, and the span ended when no event is open.
use pinpoint_cpp_examples.Common.{
  ℕ, zero, suc, ◌≡◌, refl, Bool, false, ◌&&◌, Option, none, some, List, [], ◌∷◌, ◌++◌, arith, ◌==◌,
  ltb, Option-cases, inl, inr, if◌then◌else◌,
}
use pinpoint_cpp_examples.Trace.{
  Call, new_span, on_span, new_event, on_event, end_event, end_span, acquire, release, adopt,
}

-- No span is open, or the span `s` with `n` open events.
pub data State : Type 0 where
  closed : State
  open_span : ℕ → ℕ → State

abbrev pub names : Option ℕ → ℕ → Bool
names none s = false
names (some t) s = t == s

unfoldable pub step : State → Call → Option State
step q (acquire r) = some q
step q (release r) = some q
step q (adopt r) = some q
step closed (new_span s app rpc headers) = some (open_span s 0)
step (open_span s n) (on_span t op) = if t == s then some (open_span s n) else none
step (open_span s n) (new_event t e name type) =
    if names t s && e == n then some (open_span s (suc n)) else none
step (open_span s n) (on_event e op) = if ltb e n then some (open_span s n) else none
step (open_span s (suc n)) (end_event e) = if e == n then some (open_span s n) else none
step (open_span s zero) (end_span t) = if t == s then some closed else none
step _ _ = none

infixl 5 ◌>>=◌
abbrev ◌>>=◌ : Option State → (State → Option State) → Option State
none >>= f = none
some q >>= f = f q

unfoldable pub run : State → List Call → Option State
unfolding step
run q [] = some q
run q (c ∷ cs) = step q c >>= λ r. run r cs

pub run-append : (q r : State) (xs ys : List Call) → run q xs ≡ some r → run q (xs ++ ys) ≡ run r ys
unfolding run
run-append q r [] ys h = ground arith
run-append q r (x ∷ xs) ys h = elim (Option-cases (step q x)) [
  | inl e ↦ cc
  | inr (t, e) ↦ rw (e, ◌>>=◌) (run-append t r xs ys (rw e at h))
]

pub run-cons :
    (q r : State) (c : Call) (cs : List Call) → step q c ≡ some r → run q (c ∷ cs) ≡ run r cs
unfolding run
run-cons q r c cs h = rw (h, ◌>>=◌)

pub run-nil : (q : State) → run q [] ≡ some q
unfolding run
run-nil q = refl
