-- ===== src/Trace/Drives.antt =====
-- Programs whose log drives a machine: such a program returns, the machine accepts every call that it
-- makes, and what holds of the machine and of the environment before and after is known.
pub mod Calls
use pinpoint_cpp_examples.Common.{
  ℕ, suc, ◌≡◌, refl, ◌∙◌, Bool, true, false, Option, none, some, List, [], ◌∷◌, ◌++◌, Text, arith,
  Option-cases, inl, inr, if◌then◌else◌,
}
use pinpoint_cpp_examples.Trace.{Call, ServiceType, new_event, end_event}
use pinpoint_cpp_examples.Trace.Program.{
  Program, Run, World, Outcome, Exception, Answer, value, throws, returned, thrown, fault, outcome,
  closing, continue, caught, pure, ask, need, scoped, emit, try_catch, get_span_context,
  set_span_context, ◌>>=◌,
}
use pinpoint_cpp_examples.Trace.Meets.{Returns}
use pinpoint_cpp_examples.Trace.Attempts.{Parts}

module _ {S : Type 0} where
  and_then : Option S → (S → Option S) → Option S
  and_then none f = none
  and_then (some s) f = f s

  unfoldable pub drive : (S → Call → Option S) → S → List Call → Option S
  unfolding and_then
  drive step s [] = some s
  drive step s (c ∷ cs) = and_then (step s c) (λ t. drive step t cs)

  pub drive-append :
      (step : S → Call → Option S) (s t : S) (xs ys : List Call)
      → drive step s xs ≡ some t
      → drive step s (xs ++ ys) ≡ drive step t ys
  unfolding drive
  drive-append step s t [] ys h = ground arith
  drive-append step s t (x ∷ xs) ys h = elim (Option-cases (step s x)) [
    | inl e ↦ cc
    | inr (u, e) ↦ rw (e, and_then) (drive-append step u t xs ys (rw e at h))
  ]

  pub drive-cons :
      (step : S → Call → Option S) (s t : S) (c : Call) (cs : List Call)
      → step s c ≡ some t
      → drive step s (c ∷ cs) ≡ drive step t cs
  unfolding drive
  drive-cons step s t c cs h = rw (h, and_then)

module _ {S : Type 0} (step : S → Call → Option S) where
  pub drive_nil : (s t : S) → drive step s [] ≡ some t → s ≡ t
  unfolding drive
  drive_nil s t h = cc

  -- A log that is accepted begins with a call that is accepted.
  pub drive_split :
      (s t : S) (c : Call) (cs : List Call)
      → drive step s (c ∷ cs) ≡ some t
      → (u : S) × (step s c ≡ some u) × (drive step u cs ≡ some t)
  unfolding drive
  drive_split s t c cs h = elim (Option-cases (step s c)) [
    | inl e ↦ (let no : none ≡ some t = rw (e, and_then) at h in cc)
    | inr (u, e) ↦ (u, e, rw (e, and_then) at h)
  ]

module _ {W S : Type 0} (step : S → Call → Option S) where
  abbrev pub Arrives : {A : Type 0} → (A → S → W → Type 0) → S → Run W A → Type 0
  Arrives Q s r =
      (t : S) × (drive step s r.log ≡ some t) × Returns (λ a v. Q a t v) r.out r.world.env

  pub record Drives {A : Type 0} (I : S → W → Type 0) (m : Program W A) (Q : A → S → W → Type 0)
      : Type 0 where
    pub at : (d : ℕ) (w : World W) (s : S) → I s w.env → Arrives Q s (m d w)

  continue-Arrives :
      {A B : Type 0} (Q : A → S → W → Type 0) (R : B → S → W → Type 0) (s : S) (o : Outcome A)
      (log : List Call) (w : World W) (f : A → World W → Run W B)
      → Arrives Q s (record { log = log; out = o; world = w })
      → ((a : A) (t : S) → Q a t w.env → Arrives R t (f a w))
      → Arrives R s (continue o log w f)
  continue-Arrives Q R s (returned a) log w f (t, went, q) k =
      let (u, goes, r) = k a t q in (u, drive-append step s t log _ went ∙ goes, r)
  continue-Arrives Q R s (thrown e) log w f (t, went, q) k = absurd q
  continue-Arrives Q R s fault log w f (t, went, q) k = absurd q

  closes :
      {A : Type 0} (Q : A → S → W → Type 0) (o : Outcome A) (s t : S) (w : World W)
      (log : List Call) (d : ℕ)
      → ((e : ℕ) → step t (end_event e) ≡ some t)
      → drive step s log ≡ some t
      → Returns (λ a v. Q a t v) o w.env
      → drive step s (log ++ closing o d) ≡ some t
  unfolding drive
  closes Q (returned a) s t w log d k h q =
      drive-append step s t log _ h ∙ drive-cons step t t (end_event d) [] (k d)
  closes Q (thrown e) s t w log d k h q = absurd q
  closes Q fault s t w log d k h q = absurd q

  pub caught-Arrives :
      {A : Type 0} (Q : A → S → W → Type 0) (s : S) (o : Outcome A) (log : List Call) (w : World W)
      (f : Exception → World W → Run W A)
      → Arrives Q s (record { log = log; out = o; world = w })
      → Arrives Q s (caught o log w f)
  caught-Arrives Q s (returned a) log w f h = h
  caught-Arrives Q s (thrown e) log w f (t, went, q) = absurd q
  caught-Arrives Q s fault log w f (t, went, q) = absurd q

module _ {W A S : Type 0} {step : S → Call → Option S} {I : S → W → Type 0} where
  pub Drives-pure :
      (a : A) {Q : A → S → W → Type 0}
      → ((s : S) (w : W) → I s w → Q a s w)
      → Drives step I (pure a) Q
  unfolding pure drive
  Drives-pure a k = record { at = λ d w s i. (s, refl, k s w.env i) }

  pub Drives-ask :
      (f : W → Answer A × W) {Q : A → S → W → Type 0}
      → ((s : S) (w : W) → I s w → Returns (λ a v. Q a s v) (outcome (f w).0) (f w).1)
      → Drives step I (ask f) Q
  unfolding ask drive
  Drives-ask f k = record { at = λ d w s i. (s, refl, k s w.env i) }

  pub Drives-try :
      (m : Program W A) (handler : Exception → Program W A) {Q : A → S → W → Type 0}
      → Drives step I m Q
      → Drives step I (try_catch m handler) Q
  unfolding try_catch
  Drives-try m handler {Q} k = record {
    at = λ d w s i. caught-Arrives step Q s _ _ _ _ (k.at d w s i);
  }

  pub Drives-if :
      (b : Bool) {m n : Program W A} {Q : A → S → W → Type 0}
      → Drives step I m Q
      → Drives step I n Q
      → Drives step I (if b then m else n) Q
  Drives-if true km kn = km
  Drives-if false km kn = kn

  pub Drives-bind :
      {B : Type 0} {m : Program W A} {f : A → Program W B} (Q : A → S → W → Type 0)
      {R : B → S → W → Type 0}
      → Drives step I m Q
      → ((a : A) → Drives step (Q a) (f a) R)
      → Drives step I (m >>= f) R
  unfolding ◌>>=◌
  Drives-bind Q {R} km kf = record {
    at =
        λ d w s i. continue-Arrives step Q R s _ _ _ _ (km.at d w s i) (λ a t q. (kf a).at d _ t q);
  }

module _ {W S : Type 0} {step : S → Call → Option S} {I : S → W → Type 0} where
  pub Drives-emit :
      (c : Call) {Q : Unit {0} → S → W → Type 0}
      → ((s : S) (w : W) → I s w → (t : S) × (step s c ≡ some t) × Q tt t w)
      → Drives step I (emit c) Q
  unfolding emit drive
  Drives-emit c k = record {
    at = λ d w s i. (let (t, e, q) = k s w.env i in (t, drive-cons step s t c [] e, q));
  }

  pub Drives-get_span_context : Drives step I get_span_context (λ a. I)
  unfolding get_span_context drive
  Drives-get_span_context = record { at = λ d w s i. (s, refl, i) }

  pub Drives-set_span_context : (c : Option ℕ) → Drives step I (set_span_context c) (λ u. I)
  unfolding set_span_context drive
  Drives-set_span_context c = record { at = λ d w s i. (s, refl, i) }

-- A machine that opening and closing an event leaves alone.
abbrev pub Overlooks : {S : Type 0} → (S → Call → Option S) → Type 0
Overlooks {S} step =
    ((s : S) (span : Option ℕ) (e : ℕ) (name : Text) (type : ServiceType)
      → step s (new_event span e name type) ≡ some s)
    × ((s : S) (e : ℕ) → step s (end_event e) ≡ some s)

module _ {W A S : Type 0} {step : S → Call → Option S} {I : S → W → Type 0} where
  pub Drives-scoped :
      (span : Option ℕ) (name : Text) (type : ServiceType) (body : ℕ → Program W A)
      {Q : A → S → W → Type 0}
      → Overlooks step
      → ((d : ℕ) → Drives step I (body d) Q)
      → Drives step I (scoped span name type body) Q
  unfolding scoped
  Drives-scoped span name type body {Q} (opens, shuts) k = record {
    at = λ d w s i.
        let r = body d (suc d) w in
        let (t, went, q) = (k d).at (suc d) w s i in
        (
          t,
          drive-cons step s s (new_event span d name type) _ (opens s span d name type)
              ∙ closes step Q r.out s t r.world r.log d (shuts t) went q,
          q,
        );
  }
