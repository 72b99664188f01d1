-- ===== src/Trace/Attempts.antt =====
-- Calls of other libraries that may throw, in a `try` whose handler turns the exception into a result.
use pinpoint_cpp_examples.Common.{ℕ, ◌≡◌, refl, Option, [], Bool, true}
use pinpoint_cpp_examples.Trace.{EventOp}
use pinpoint_cpp_examples.Trace.Program.{
  Program, Run, World, Exception, Answer, value, throws, outcome, pure, ask, need, try_catch,
  continue, caught, ◌>>=◌, ◌>>◌,
}
use pinpoint_cpp_examples.Trace.Shows.{seen}
use pinpoint_cpp_examples.Trace.Meets.{Meets, Returns, caught_meets}

-- What holds after a call that may throw, whose exception a handler turns into a result.
abbrev pub Settles :
    {W A : Type 0} → (A → W → Type 0) → Answer (Unit {0}) → A → (Exception → A) → W → Type 0
Settles Q (value u) r handler w = Q r w
Settles Q (throws x) r handler w = Q (handler x) w

module _ {W A X : Type 0} (view : EventOp → Option X) (Q : A → W → Type 0) where
  settled : Answer (Unit {0}) → World W → A → (Exception → A) → Run W A
  unfolding pure
  settled a w r handler =
      let t = continue (outcome a) [] w (λ u v. pure r 0 v) in
      caught t.out t.log t.world (λ x v. pure (handler x) 0 v)

  settled_lem :
      (a : Answer (Unit {0})) (w : World W) (r : A) (handler : Exception → A)
      → Settles Q a r handler w.env
      → Returns Q (settled a w r handler).out (settled a w r handler).world.env
        × (seen view (settled a w r handler).log ≡ [])
  unfolding settled seen
  settled_lem (value u) w r handler h = (h, refl)
  settled_lem (throws x) w r handler h = (h, refl)

-- What a call that may throw leaves to what follows it, or to the handler.
abbrev pub Parts :
    {W A B : Type 0} → (B → W → Type 0) → (A → W → Type 0) → (Exception → A) → Answer B → W → Type 0
Parts R Q handler (value b) w = R b w
Parts R Q handler (throws x) w = Q (handler x) w

module _ {W A B X : Type 0} (view : EventOp → Option X) (Q : A → W → Type 0) (R : B → W → Type 0)
    (next : B → Program W A) (handler : Exception → A) where
  tried : Answer B → ℕ → World W → Run W A
  unfolding pure
  tried a d w =
      let t = continue (outcome a) [] w (λ b v. next b d v) in
      caught t.out t.log t.world (λ x v. pure (handler x) d v)

  tried_lem :
      ((b : B) → Meets view (R b) (next b) [] Q)
      → (a : Answer B) (d : ℕ) (w : World W) → Parts R Q handler a w.env
      → Returns Q (tried a d w).out (tried a d w).world.env × (seen view (tried a d w).log ≡ [])
  unfolding tried seen
  tried_lem after (value b) d w h =
      let (ended, shown) = (after b).at d w h in caught_meets view Q _ _ _ _ [] ended shown
  tried_lem after (throws x) d w h = (h, refl)

module _ {W A X : Type 0} {view : EventOp → Option X} {I : W → Type 0} where
  -- A call that may throw and does not know what it is called on.
  pub Meets-attempt :
      (f : W → Answer (Unit {0}) × W) (r : A) (handler : Exception → A) {Q : A → W → Type 0}
      → ((w : W) → I w → Settles Q (f w).0 r handler (f w).1)
      → Meets view I (try_catch (ask f >> pure r) (λ x. pure (handler x))) [] Q
  unfolding try_catch ◌>>=◌ settled
  Meets-attempt f r handler {Q} k = record {
    at = λ d w i.
        settled_lem view Q (f w.env).0 (record w { env = (f w.env).1 }) r handler (k w.env i);
  }

  -- A call that may throw, with what follows it when it does not.
  pub Meets-try_ask :
      {B : Type 0} (f : W → Answer B × W) (next : B → Program W A) (handler : Exception → A)
      {R : B → W → Type 0} {Q : A → W → Type 0}
      → ((w : W) → I w → Parts R Q handler (f w).0 (f w).1)
      → ((b : B) → Meets view (R b) (next b) [] Q)
      → Meets view I (try_catch (ask f >>= next) (λ x. pure (handler x))) [] Q
  unfolding try_catch ◌>>=◌ tried
  Meets-try_ask f next handler {R} {Q} k after = record {
    at = λ d w i.
        tried_lem view Q R next handler after (f w.env).0 d (record w { env = (f w.env).1 })
          (k w.env i);
  }

  -- The same through a pointer that is set.
  pub Meets-attempt_set :
      (is_set : W → Bool) (f : W → Answer (Unit {0}) × W) (r : A) (handler : Exception → A)
      {Q : A → W → Type 0}
      → ((w : W) → I w → is_set w ≡ true)
      → ((w : W) → I w → Settles Q (f w).0 r handler (f w).1)
      → Meets view I (try_catch (need is_set >> (ask f >> pure r)) (λ x. pure (handler x))) [] Q
  unfolding try_catch ◌>>=◌ settled
  Meets-attempt_set is_set f r handler {Q} set k = record {
    at = λ d w i.
        rw (set w.env i)
          (settled_lem view Q (f w.env).0 (record w { env = (f w.env).1 }) r handler (k w.env i));
  }
