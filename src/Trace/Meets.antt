-- ===== src/Trace/Meets.antt =====
-- Programs with a precondition and a postcondition on the environment, for code whose calls depend on
-- what earlier ones left: such a program returns, and what a view picks of its span events is known.
use pinpoint_cpp_examples.Common.{
  ℕ, suc, ◌≡◌, refl, subst, ◌∙◌, Option, List, [], ◌∷◌, ◌++◌, Text, Bool, true, false, append-nil,
  if◌then◌else◌,
}
use pinpoint_cpp_examples.Trace.{Call, EventOp, ServiceType, Resource, on_event, acquire, release}
use pinpoint_cpp_examples.Trace.Program.{
  Program, Run, World, Outcome, Exception, Answer, returned, thrown, fault, outcome, pure, ask,
  scoped, try_catch, emit, get_span_context, continue, caught, ◌>>=◌,
}
use pinpoint_cpp_examples.Trace.Protocol.{open_span, run-append}
use pinpoint_cpp_examples.Trace.Shows.{seen, seen-append, seen-scope, with_seen}
use pinpoint_cpp_examples.Trace.Balanced.{IsBalanced, Keeps}

abbrev pub Returns : {W A : Type 0} → (A → W → Type 0) → Outcome A → W → Type 0
Returns Q (returned a) w = Q a w
Returns Q (thrown e) w = ⊥
Returns Q fault w = ⊥

pub record Meets {W A X : Type 0} (view : EventOp → Option X) (I : W → Type 0) (m : Program W A)
    (xs : List X) (Q : A → W → Type 0) : Type 0 where
  pub at :
      (d : ℕ) (w : World W)
      → I w.env
      → Returns Q (m d w).out (m d w).world.env × (seen view (m d w).log ≡ xs)

module _ {W A X : Type 0} {view : EventOp → Option X} {I : W → Type 0} where
  pub Meets-pure :
      (a : A) {Q : A → W → Type 0} → ((w : W) → I w → Q a w) → Meets view I (pure a) [] Q
  unfolding pure seen
  Meets-pure a k = record { at = λ d w i. (k w.env i, refl) }

  pub Meets-ask :
      (f : W → Answer A × W) {Q : A → W → Type 0}
      → ((w : W) → I w → Returns Q (outcome (f w).0) (f w).1)
      → Meets view I (ask f) [] Q
  unfolding ask seen
  Meets-ask f k = record { at = λ d w i. (k w.env i, refl) }

  pub Meets-scoped :
      (s : Option ℕ) (name : Text) (type : ServiceType) (body : ℕ → Program W A) {xs : List X}
      {Q : A → W → Type 0}
      → ((d : ℕ) → Meets view I (body d) xs Q)
      → Meets view I (scoped s name type body) xs Q
  unfolding scoped seen
  Meets-scoped s name type body k = record {
    at = λ d w i.
        let (ended, shown) = (k d).at (suc d) w i in
        (ended, seen-scope view (body d (suc d) w).log _ d ∙ shown);
  }

module _ {W X : Type 0} {view : EventOp → Option X} {I : W → Type 0} where
  pub Meets-on_event :
      (e : ℕ) (op : EventOp)
      → Meets view I (emit (on_event e op)) (with_seen (view op) []) (λ u w. I w)
  unfolding emit seen
  Meets-on_event e op = record { at = λ d w i. (i, refl) }

  pub Meets-acquire : (r : Resource) → Meets view I (emit (acquire r)) [] (λ u w. I w)
  unfolding emit seen
  Meets-acquire r = record { at = λ d w i. (i, refl) }

  pub Meets-release : (r : Resource) → Meets view I (emit (release r)) [] (λ u w. I w)
  unfolding emit seen
  Meets-release r = record { at = λ d w i. (i, refl) }

  -- A call that the view does not pick.
  pub Meets-quiet : (c : Call) → seen view (c ∷ []) ≡ [] → Meets view I (emit c) [] (λ u w. I w)
  unfolding emit
  Meets-quiet c h = record { at = λ d w i. (i, h) }

  pub Meets-get_span_context : Meets view I get_span_context [] (λ s w. I w)
  unfolding get_span_context seen
  Meets-get_span_context = record { at = λ d w i. (i, refl) }

module _ {W A B X : Type 0} (view : EventOp → Option X) (Q : A → W → Type 0)
    (R : B → W → Type 0) where
  continue_meets :
      (o : Outcome A) (log : List Call) (w : World W) (f : A → World W → Run W B) (xs ys : List X)
      → Returns Q o w.env
      → seen view log ≡ xs
      → ((a : A)
          → Q a w.env
          → Returns R (f a w).out (f a w).world.env × (seen view (f a w).log ≡ ys))
      → Returns R (continue o log w f).out (continue o log w f).world.env
        × (seen view (continue o log w f).log ≡ xs ++ ys)
  continue_meets (returned a) log w f xs ys h e k =
      ((k a h).0, seen-append view log _ ∙ rw (e, (k a h).1))
  continue_meets (thrown x) log w f xs ys h e k = absurd h
  continue_meets fault log w f xs ys h e k = absurd h

module _ {W A B X : Type 0} {view : EventOp → Option X} {I : W → Type 0} where
  pub Meets-bind :
      {m : Program W A} {f : A → Program W B} {xs ys : List X} {Q : A → W → Type 0}
      {R : B → W → Type 0}
      → Meets view I m xs Q
      → ((a : A) → Meets view (Q a) (f a) ys R)
      → Meets view I (m >>= f) (xs ++ ys) R
  unfolding ◌>>=◌
  Meets-bind {xs} {ys} {Q} {R} km kf = record {
    at = λ d w i.
        continue_meets view Q R _ _ _ _ xs ys (km.at d w i).0 (km.at d w i).1
          (λ a q. (kf a).at d _ q);
  }

  -- What follows shows nothing.
  pub Meets-then :
      {m : Program W A} {f : A → Program W B} {xs : List X} {Q : A → W → Type 0}
      {R : B → W → Type 0}
      → Meets view I m xs Q
      → ((a : A) → Meets view (Q a) (f a) [] R)
      → Meets view I (m >>= f) xs R
  Meets-then {m} {f} {xs} {R} km kf =
      subst (λ ys. Meets view I (m >>= f) ys R) (append-nil xs) (Meets-bind km kf)

module _ {W A X : Type 0} (view : EventOp → Option X) (Q : A → W → Type 0) where
  pub caught_meets :
      (o : Outcome A) (log : List Call) (w : World W) (handler : Exception → World W → Run W A)
      (xs : List X)
      → Returns Q o w.env
      → seen view log ≡ xs
      → Returns Q (caught o log w handler).out (caught o log w handler).world.env
        × (seen view (caught o log w handler).log ≡ xs)
  caught_meets (returned a) log w handler xs h e = (h, e)
  caught_meets (thrown x) log w handler xs h e = absurd h
  caught_meets fault log w handler xs h e = absurd h

module _ {W A X : Type 0} {view : EventOp → Option X} {I : W → Type 0} where
  -- A `try` whose body does not throw.
  pub Meets-try :
      {m : Program W A} (handler : Exception → Program W A) {xs : List X} {Q : A → W → Type 0}
      → Meets view I m xs Q
      → Meets view I (try_catch m handler) xs Q
  unfolding try_catch
  Meets-try handler {xs} {Q} k = record {
    at = λ d w i. caught_meets view Q _ _ _ _ xs (k.at d w i).0 (k.at d w i).1;
  }

  pub Meets-if :
      (b : Bool) {m n : Program W A} {xs : List X} {Q : A → W → Type 0}
      → Meets view I m xs Q
      → Meets view I n xs Q
      → Meets view I (if b then m else n) xs Q
  Meets-if true km kn = km
  Meets-if false km kn = kn

module _ {W A B : Type 0} (I : W → Type 0) (Q : A → W → Type 0) (s d : ℕ) where
  continue-after :
      (o : Outcome A) (log : List Call) (w : World W) (f : A → World W → Run W B)
      → Keeps I s d (record { log = log; out = o; world = w })
      → Returns Q o w.env
      → ((a : A) → Q a w.env → Keeps I s d (f a w))
      → Keeps I s d (continue o log w f)
  continue-after (returned a) log w f h q k =
      let (balanced, kept, holds, sound) = k a q in
      (run-append _ (open_span s d) log _ h.0 ∙ balanced, kept, holds, sound)
  continue-after (thrown e) log w f h q k = absurd q
  continue-after fault log w f h q k = absurd q

module _ {W A B X : Type 0} {view : EventOp → Option X} {I : W → Type 0} {s d : ℕ} where
  -- What follows may rely on what the first program has established.
  pub IsBalanced-after :
      {m : Program W A} {f : A → Program W B} {xs : List X} {Q : A → W → Type 0}
      → IsBalanced I s d m
      → Meets view I m xs Q
      → ((a : A) (w : W) → Q a w → I w)
      → ((a : A) → IsBalanced (Q a) s d (f a))
      → IsBalanced I s d (m >>= f)
  unfolding ◌>>=◌
  IsBalanced-after {Q} km q weaken kf = record {
    at = λ w h i.
        let kept = km.at w h i in
        continue-after I Q s d _ _ _ _ kept (q.at d w i).0 (λ a qa.
          let (balanced, current, holds, sound) = (kf a).at _ kept.1 qa in
          (balanced, current, weaken a _ holds, sound));
  }

pub Returns-returned :
    {W A : Type 0} (Q : A → W → Type 0) (o : Outcome A) (w : W)
    → Returns Q o w
    → (a : A) × (o ≡ returned a) × Q a w
Returns-returned Q (returned a) w h = (a, refl, h)
Returns-returned Q (thrown e) w h = absurd h
Returns-returned Q fault w h = absurd h
