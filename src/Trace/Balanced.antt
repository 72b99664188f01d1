-- ===== src/Trace/Balanced.antt =====
-- Programs that leave the span as they found it: whether such a program returns or throws, its log
-- keeps to the protocol, every event that it opened is closed, and the thread's span is still there.
use pinpoint_cpp_examples.Common.{
  ℕ, suc, ◌<◌, ◌≡◌, refl, sym, ◌∙◌, subst, Bool, true, false, Option, some, List, [], ◌∷◌, arith,
  Text, lt→ltb, ==_refl, if◌then◌else◌,
}
use pinpoint_cpp_examples.Trace.{
  Call, SpanOp, EventOp, ServiceType, on_span, on_event, end_event, acquire, release, Resource,
}
use pinpoint_cpp_examples.Trace.Program.{
  Program, Run, World, Answer, NoFault, value, throws, outcome, closing, need, Outcome, Exception,
  returned, thrown, fault, pure, raise, ask, scoped, try_catch, emit, get_span_context, continue,
  caught, ◌>>=◌,
}
use pinpoint_cpp_examples.Trace.Protocol.{open_span, run, run-append}

-- What a run has to satisfy, where the code relies on `I` of its environment.
abbrev pub Keeps : {W A : Type 0} → (W → Type 0) → ℕ → ℕ → Run W A → Type 0
Keeps I s d r =
    (run (open_span s d) r.log ≡ some (open_span s d))
    × (r.world.current ≡ some s)
    × I r.world.env
    × NoFault r.out

pub record IsBalanced {W A : Type 0} (I : W → Type 0) (s d : ℕ) (m : Program W A) : Type 0 where
  pub at : (w : World W) → w.current ≡ some s → I w.env → Keeps I s d (m d w)

-- For code that relies on nothing.
abbrev pub Anything : {W : Type 0} → W → Type 0
Anything w = Unit {0}

module _ {A : Type 0} where
  outcome-NoFault : (a : Answer A) → NoFault (outcome a)
  outcome-NoFault (value a) = tt
  outcome-NoFault (throws e) = tt

  closing_lem : (o : Outcome A) (d : ℕ) → NoFault o → closing o d ≡ end_event d ∷ []
  closing_lem (returned a) d h = refl
  closing_lem (thrown e) d h = refl
  closing_lem fault d h = absurd h

module _ {W A : Type 0} (I : W → Type 0) (s d : ℕ) where
  caught-Keeps :
      (o : Outcome A) (log : List Call) (w : World W) (handler : Exception → World W → Run W A)
      → Keeps I s d (record { log = log; out = o; world = w })
      → ((e : Exception) → Keeps I s d (handler e w))
      → Keeps I s d (caught o log w handler)
  caught-Keeps (returned a) log w handler h k = h
  caught-Keeps (thrown e) log w handler h k =
      (run-append _ (open_span s d) log _ h.0 ∙ (k e).0, (k e).1, (k e).2, (k e).3)
  caught-Keeps fault log w handler h k = absurd h.3

module _ {W A : Type 0} {I : W → Type 0} {s d : ℕ} where
  pub IsBalanced-pure : (a : A) → IsBalanced I s d (pure a)
  unfolding pure run
  IsBalanced-pure a = record { at = λ w h i. (refl, h, i, tt) }

  pub IsBalanced-raise : (e : Exception) → IsBalanced {A = A} I s d (raise e)
  unfolding raise run
  IsBalanced-raise e = record { at = λ w h i. (refl, h, i, tt) }

  pub IsBalanced-ask :
      (f : W → Answer A × W) → ((w : W) → I w → I (f w).1) → IsBalanced I s d (ask f)
  unfolding ask run
  IsBalanced-ask f k = record { at = λ w h i. (refl, h, k w.env i, outcome-NoFault (f w.env).0) }

  pub IsBalanced-scoped :
      (name : Text) (type : ServiceType) (body : ℕ → Program W A)
      → IsBalanced I s (suc d) (body d)
      → IsBalanced I s d (scoped (some s) name type body)
  unfolding scoped run
  IsBalanced-scoped name type body k = record {
    at = λ w h i.
        let (balanced, kept, holds, sound) = k.at w h i in
        (
          rw (==_refl s, ==_refl d, closing_lem _ d sound)
              (run-append _ (open_span s (suc d)) (body d (suc d) w).log _ balanced
                ∙ rw (==_refl d)),
          kept,
          holds,
          sound,
        );
  }

  pub IsBalanced-try_catch :
      (m : Program W A) (handler : Exception → Program W A)
      → IsBalanced I s d m
      → ((e : Exception) → IsBalanced I s d (handler e))
      → IsBalanced I s d (try_catch m handler)
  unfolding try_catch
  IsBalanced-try_catch m handler km kh = record {
    at = λ w h i.
        let (balanced, kept, holds, sound) = km.at w h i in
        caught-Keeps I s d _ _ _ _ (balanced, kept, holds, sound) (λ e. (kh e).at _ kept holds);
  }

  pub IsBalanced-if :
      (b : Bool) (m n : Program W A)
      → IsBalanced I s d m
      → IsBalanced I s d n
      → IsBalanced I s d (if b then m else n)
  IsBalanced-if true m n km kn = km
  IsBalanced-if false m n km kn = kn

module _ {W : Type 0} {I : W → Type 0} {s d : ℕ} where
  pub IsBalanced-on_span : (op : SpanOp) → IsBalanced I s d (emit (on_span s op))
  unfolding emit run
  IsBalanced-on_span op = record { at = λ w h i. (rw (==_refl s), h, i, tt) }

  pub IsBalanced-on_event : {e : ℕ} (op : EventOp) → e < d → IsBalanced I s d (emit (on_event e op))
  unfolding emit run
  IsBalanced-on_event op h = record { at = λ w c i. (rw (lt→ltb _ _ h), c, i, tt) }

  pub IsBalanced-acquire : (r : Resource) → IsBalanced I s d (emit (acquire r))
  unfolding emit run
  IsBalanced-acquire r = record { at = λ w c i. (refl, c, i, tt) }

  pub IsBalanced-release : (r : Resource) → IsBalanced I s d (emit (release r))
  unfolding emit run
  IsBalanced-release r = record { at = λ w c i. (refl, c, i, tt) }

  pub IsBalanced-need :
      (is_set : W → Bool) → ((w : W) → I w → is_set w ≡ true) → IsBalanced I s d (need is_set)
  unfolding need run
  IsBalanced-need is_set k = record { at = λ w h i. (refl, h, i, rw (k w.env i) tt) }

module _ {W A B : Type 0} (I : W → Type 0) (s d : ℕ) where
  continue-Keeps :
      (o : Outcome A) (log : List Call) (w : World W) (f : A → World W → Run W B)
      → Keeps I s d (record { log = log; out = o; world = w })
      → ((a : A) → Keeps I s d (f a w))
      → Keeps I s d (continue o log w f)
  continue-Keeps (returned a) log w f h k =
      (run-append _ (open_span s d) log _ h.0 ∙ (k a).0, (k a).1, (k a).2, (k a).3)
  continue-Keeps (thrown e) log w f h k = h
  continue-Keeps fault log w f h k = absurd h.3

module _ {W A B : Type 0} {I : W → Type 0} {s d : ℕ} where
  pub IsBalanced-bind :
      (m : Program W A) (f : A → Program W B)
      → IsBalanced I s d m
      → ((a : A) → IsBalanced I s d (f a))
      → IsBalanced I s d (m >>= f)
  unfolding ◌>>=◌
  IsBalanced-bind m f km kf = record {
    at = λ w h i.
        let (balanced, kept, holds, sound) = km.at w h i in
        continue-Keeps I s d _ _ _ _ (balanced, kept, holds, sound) (λ a. (kf a).at _ kept holds);
  }

module _ {W B : Type 0} {I : W → Type 0} {s d : ℕ} where
  -- Where the thread has a span, that span is the one that is read.
  pub IsBalanced-get_span_context :
      (f : Option ℕ → Program W B)
      → IsBalanced I s d (f (some s))
      → IsBalanced I s d (get_span_context >>= f)
  unfolding ◌>>=◌
  IsBalanced-get_span_context f k = record {
    at = λ w h i. subst (λ c. Keeps I s d (f c d w)) (sym h) (k.at w h i);
  }

pub IsBalanced-ask_any :
    {W A : Type 0} {s d : ℕ} (f : W → Answer A × W) → IsBalanced Anything s d (ask f)
IsBalanced-ask_any f = IsBalanced-ask f (λ w h. tt)

-- The event that a guard in scope opened is still open.
pub lt_suc : (d : ℕ) → d < suc d
lt_suc d = omega arith

pub lt_suc_of_lt : (e d : ℕ) → e < d → e < suc d
lt_suc_of_lt e d h = omega arith

pub ruleset balanced = (
  IsBalanced-pure, IsBalanced-raise, IsBalanced-ask_any, IsBalanced-scoped, IsBalanced-try_catch,
  IsBalanced-if, IsBalanced-on_span, IsBalanced-on_event, IsBalanced-acquire, IsBalanced-release,
  IsBalanced-get_span_context, IsBalanced-bind, lt_suc, lt_suc_of_lt,
)
