-- ===== src/Trace/Drives/Calls.antt =====
-- Calls of other libraries that may throw, in a `try`, along a machine.
use pinpoint_cpp_examples.Common.{ℕ, ◌≡◌, refl, Bool, true, Option, []}
use pinpoint_cpp_examples.Trace.{Call}
use pinpoint_cpp_examples.Trace.Program.{
  Program, Run, World, Exception, Answer, value, throws, outcome, continue, caught, pure, ask, need,
  try_catch, ◌>>=◌,
}
use pinpoint_cpp_examples.Trace.Attempts.{Parts}
use pinpoint_cpp_examples.Trace.Drives.{Drives, Arrives, drive, caught-Arrives}

module _ {W A B S : Type 0} (step : S → Call → Option S) (Q : A → S → W → Type 0)
    (R : B → S → W → Type 0) (next : B → Program W A) (handler : Exception → A) where
  tried : Answer B → ℕ → World W → Run W A
  unfolding pure
  tried a d w =
      let t = continue (outcome a) [] w (λ b v. next b d v) in
      caught t.out t.log t.world (λ x v. pure (handler x) d v)

  tried_lem :
      ((b : B) → Drives step (R b) (next b) Q)
      → (a : Answer B) (d : ℕ) (w : World W) (s : S)
      → Parts (λ b v. R b s v) (λ x v. Q x s v) handler a w.env
      → Arrives step Q s (tried a d w)
  unfolding tried drive
  tried_lem after (value b) d w s h = caught-Arrives step Q s _ _ _ _ ((after b).at d w s h)
  tried_lem after (throws x) d w s h = (s, refl, h)

module _ {W A S : Type 0} {step : S → Call → Option S} {I : S → W → Type 0} where
  -- A call that may throw, with what follows it when it does not, behind a pointer that is set.
  pub Drives-try_set :
      {B : Type 0} (is_set : W → Bool) (f : W → Answer B × W) (next : B → Program W A)
      (handler : Exception → A) (R : B → S → W → Type 0) {Q : A → S → W → Type 0}
      → ((s : S) (w : W) → I s w → is_set w ≡ true)
      → ((s : S) (w : W) → I s w → Parts (λ b v. R b s v) (λ a v. Q a s v) handler (f w).0 (f w).1)
      → ((b : B) → Drives step (R b) (next b) Q)
      → Drives step I (try_catch (need is_set >>= λ u. ask f >>= next) (λ x. pure (handler x))) Q
  unfolding try_catch ◌>>=◌ tried
  Drives-try_set is_set f next handler R {Q} set k after = record {
    at = λ d w s i. rw (set s w.env i) (
        tried_lem step Q R next handler after (f w.env).0 d (record w { env = (f w.env).1 }) s
          (k s w.env i));
  }

  -- The same without a pointer.
  pub Drives-try_ask :
      {B : Type 0} (f : W → Answer B × W) (next : B → Program W A) (handler : Exception → A)
      (R : B → S → W → Type 0) {Q : A → S → W → Type 0}
      → ((s : S) (w : W) → I s w → Parts (λ b v. R b s v) (λ a v. Q a s v) handler (f w).0 (f w).1)
      → ((b : B) → Drives step (R b) (next b) Q)
      → Drives step I (try_catch (ask f >>= next) (λ x. pure (handler x))) Q
  unfolding try_catch ◌>>=◌ tried
  Drives-try_ask f next handler R {Q} k after = record {
    at = λ d w s i.
        tried_lem step Q R next handler after (f w.env).0 d (record w { env = (f w.env).1 }) s
          (k s w.env i);
  }
