-- ===== src/Trace/Goes.antt =====
-- Runs that take the protocol from one state to another and return a result of which something is
-- known, for handlers that make and end a span of their own.
use pinpoint_cpp_examples.Common.{
  ℕ, suc, ◌≡◌, refl, ◌∙◌, Option, some, List, ◌∷◌, ◌++◌, Text, ==_refl,
}
use pinpoint_cpp_examples.Trace.{Call, SpanOp, Carrier, ServiceType, new_span, on_span, new_event}
use pinpoint_cpp_examples.Trace.Program.{
  Program, Run, World, Outcome, returned, thrown, fault, closing, continue, scoped,
}
use pinpoint_cpp_examples.Trace.Protocol.{State, closed, open_span, run, step, run-append, run-cons}

-- What holds of a result that is returned; nothing else comes out.
abbrev pub Gives : {A : Type 0} → (A → Type 0) → Outcome A → Type 0
Gives P (returned a) = P a
Gives P (thrown e) = ⊥
Gives P fault = ⊥

pub Gives-map :
    {A : Type 0} (P Q : A → Type 0) (o : Outcome A) → ((a : A) → P a → Q a) → Gives P o → Gives Q o
Gives-map P Q (returned a) k h = k a h
Gives-map P Q (thrown e) k h = absurd h
Gives-map P Q fault k h = absurd h

-- A run that takes the protocol from `p` to `q` and returns what `P` says.
abbrev pub Goes : {W A : Type 0} → State → State → (A → Type 0) → Run W A → Type 0
Goes p q P r = (run p r.log ≡ some q) × Gives P r.out

module _ {W A B : Type 0} where
  pub continue-Goes :
      (p q t : State) (P : A → Type 0) (R : B → Type 0) (o : Outcome A) (log : List Call)
      (w : World W) (f : A → World W → Run W B)
      → run p log ≡ some q
      → Gives P o
      → ((a : A) → P a → Goes q t R (f a w))
      → Goes p t R (continue o log w f)
  continue-Goes p q t P R (returned a) log w f h k next =
      let (went, shown) = next a k in (run-append p q log (f a w).log h ∙ went, shown)
  continue-Goes p q t P R (thrown x) log w f h k next = absurd k
  continue-Goes p q t P R fault log w f h k next = absurd k

module _ (s d : ℕ) where
  closes :
      {A : Type 0} (P : A → Type 0) (o : Outcome A)
      → Gives P o
      → run (open_span s (suc d)) (closing o d) ≡ some (open_span s d)
  unfolding run
  closes P (returned a) h = rw (==_refl d)
  closes P (thrown e) h = absurd h
  closes P fault h = absurd h

  opens :
      (name : Text) (type : ServiceType)
      → step (open_span s d) (new_event (some s) d name type) ≡ some (open_span s (suc d))
  unfolding step
  opens name type = rw (==_refl s, ==_refl d)

  -- A span event's scope leaves the protocol where it was.
  pub scoped-Goes :
      {W A : Type 0} (P : A → Type 0) (name : Text) (type : ServiceType) (body : ℕ → Program W A)
      (w : World W)
      → Goes (open_span s (suc d)) (open_span s (suc d)) P (body d (suc d) w)
      → Goes (open_span s d) (open_span s d) P (scoped (some s) name type body d w)
  unfolding scoped
  scoped-Goes P name type body w (went, gives) =
      let r = body d (suc d) w in
      (
        run-cons (open_span s d) (open_span s (suc d)) _ (r.log ++ closing r.out d)
              (opens name type)
            ∙ run-append _ (open_span s (suc d)) r.log (closing r.out d) went
            ∙ closes P r.out gives,
        gives,
      )

-- A span is created and told about its request.
pub run-new_span :
    (s : ℕ) (app rpc : Text) (carrier : Option Carrier) (op : SpanOp) (cs : List Call)
    → run closed (new_span s app rpc carrier ∷ on_span s op ∷ cs) ≡ run (open_span s 0) cs
unfolding step
run-new_span s app rpc carrier op cs =
    run-cons closed (open_span s 0) _ _ refl ∙ run-cons _ (open_span s 0) _ _ (rw (==_refl s))
