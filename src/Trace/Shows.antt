-- ===== src/Trace/Shows.antt =====
-- What a program tells its span events, seen through a view that picks some of the methods: a program
-- shows a list when it always returns and the picked calls are that list, in order.
use pinpoint_cpp_examples.Common.{
  ℕ, suc, ◌≡◌, refl, ap, ◌∙◌, Option, none, some, List, [], ◌∷◌, ◌++◌, Text, append-nil, arith,
}
use pinpoint_cpp_examples.Trace.{
  Call, EventOp, set_annotation, api, Resource, ServiceType, on_event, acquire, release,
}
use pinpoint_cpp_examples.Trace.Program.{
  Program, Run, World, Outcome, Exception, Answer, returned, thrown, fault, value, throws, outcome,
  closing, pure, ask, scoped, try_catch, emit, continue, caught, ◌>>=◌,
}

-- The text of an API annotation.
abbrev pub api_text : EventOp → Option Text
api_text (set_annotation api text) = some text
api_text _ = none

-- A view that looks at nothing.
abbrev pub none_of : EventOp → Option Text
none_of op = none

module _ {X : Type 0} where
  abbrev pub with_seen : Option X → List X → List X
  with_seen none xs = xs
  with_seen (some x) xs = x ∷ xs

  with_seen-append : (o : Option X) (xs ys : List X) → with_seen o (xs ++ ys) ≡ with_seen o xs ++ ys
  with_seen-append none xs ys = refl
  with_seen-append (some x) xs ys = refl

module _ {X : Type 0} (view : EventOp → Option X) where
  unfoldable pub seen : List Call → List X
  seen [] = []
  seen (on_event e op ∷ cs) = with_seen (view op) (seen cs)
  seen (_ ∷ cs) = seen cs

  pub seen-append : (cs ds : List Call) → seen (cs ++ ds) ≡ seen cs ++ seen ds
  unfolding seen
  seen-append [] ds = refl
  seen-append (on_event e op ∷ cs) ds = rw (seen-append cs ds) (with_seen-append (view op) _ _)
  seen-append (_ ∷ cs) ds = seen-append cs ds

pub seen-closing :
    {A X : Type 0} (view : EventOp → Option X) (o : Outcome A) (d : ℕ)
    → seen view (closing o d) ≡ []
unfolding seen
seen-closing view (returned a) d = refl
seen-closing view (thrown e) d = refl
seen-closing view fault d = refl

pub seen-scope :
    {A X : Type 0} (view : EventOp → Option X) (cs : List Call) (o : Outcome A) (d : ℕ)
    → seen view (cs ++ closing o d) ≡ seen view cs
seen-scope view cs o d = seen-append view cs _ ∙ rw (seen-closing view o d, append-nil)

abbrev pub IsReturned : {A : Type 0} → Outcome A → Type 0
IsReturned (returned a) = Unit {0}
IsReturned (thrown e) = ⊥
IsReturned fault = ⊥

pub record Shows {W A X : Type 0} (view : EventOp → Option X) (m : Program W A) (xs : List X)
    : Type 0 where
  pub at : (d : ℕ) (w : World W) → IsReturned (m d w).out × (seen view (m d w).log ≡ xs)

module _ {W A X : Type 0} {view : EventOp → Option X} where
  pub Shows-pure : (a : A) → Shows {W = W} view (pure a) []
  unfolding pure seen
  Shows-pure a = record { at = λ d w. (tt, refl) }

  -- A call into a C library.
  pub Shows-ask : (f : W → A × W) → Shows view (ask (λ w. (value (f w).0, (f w).1))) []
  unfolding ask seen
  Shows-ask f = record { at = λ d w. (tt, refl) }

  pub Shows-scoped :
      (s : Option ℕ) (name : Text) (type : ServiceType) (body : ℕ → Program W A) {xs : List X}
      → ((d : ℕ) → Shows view (body d) xs)
      → Shows view (scoped s name type body) xs
  unfolding scoped seen
  Shows-scoped s name type body {xs} k = record {
    at = λ d w.
        let (ended, shown) = (k d).at (suc d) w in
        (
          ended,
          seen-append view (body d (suc d) w).log _ ∙ rw (seen-closing view _ d, shown, append-nil),
        );
  }

module _ {W X : Type 0} {view : EventOp → Option X} where
  pub Shows-on_event :
      (e : ℕ) (op : EventOp) → Shows {W = W} view (emit (on_event e op)) (with_seen (view op) [])
  unfolding emit seen
  Shows-on_event e op = record { at = λ d w. (tt, refl) }

  pub Shows-acquire : (r : Resource) → Shows {W = W} view (emit (acquire r)) []
  unfolding emit seen
  Shows-acquire r = record { at = λ d w. (tt, refl) }

  pub Shows-release : (r : Resource) → Shows {W = W} view (emit (release r)) []
  unfolding emit seen
  Shows-release r = record { at = λ d w. (tt, refl) }

module _ {W A B X : Type 0} (view : EventOp → Option X) where
  continue_shows :
      (o : Outcome A) (log : List Call) (w : World W) (f : A → World W → Run W B) (xs ys : List X)
      → IsReturned o
      → seen view log ≡ xs
      → ((a : A) → IsReturned (f a w).out × (seen view (f a w).log ≡ ys))
      → IsReturned (continue o log w f).out × (seen view (continue o log w f).log ≡ xs ++ ys)
  continue_shows (returned a) log w f xs ys h e k =
      ((k a).0, seen-append view log _ ∙ rw (e, (k a).1))
  continue_shows (thrown x) log w f xs ys h e k = absurd h
  continue_shows fault log w f xs ys h e k = absurd h

module _ {W A B X : Type 0} {view : EventOp → Option X} where
  pub Shows-bind :
      {m : Program W A} {f : A → Program W B} {xs ys : List X}
      → Shows view m xs
      → ((a : A) → Shows view (f a) ys)
      → Shows view (m >>= f) (xs ++ ys)
  unfolding ◌>>=◌
  Shows-bind {xs} {ys} km kf = record {
    at = λ d w. continue_shows view _ _ _ _ xs ys (km.at d w).0 (km.at d w).1 (λ a. (kf a).at d _);
  }

module _ {W A X : Type 0} (view : EventOp → Option X) where
  caught_shows :
      (a : Answer A) (w : World W) (handler : Exception → World W → Run W A)
      → ((e : Exception) → IsReturned (handler e w).out × (seen view (handler e w).log ≡ []))
      → IsReturned (caught (outcome a) [] w handler).out
        × (seen view (caught (outcome a) [] w handler).log ≡ [])
  unfolding seen
  caught_shows (value a) w handler k = (tt, refl)
  caught_shows (throws e) w handler k = k e

module _ {W A X : Type 0} {view : EventOp → Option X} where
  -- A call that may throw, with its exception caught.
  pub Shows-try_ask :
      (f : W → Answer A × W) {handler : Exception → Program W A}
      → ((e : Exception) → Shows view (handler e) [])
      → Shows view (try_catch (ask f) handler) []
  unfolding try_catch ask seen
  Shows-try_ask f {handler} k = record {
    at = λ d w.
        caught_shows view (f w.env).0 (record w { env = (f w.env).1 }) (λ e. handler e d)
          (λ e. (k e).at d _);
  }

-- A program with no result to speak of returns it.
pub Shows-returned :
    {W X : Type 0} {view : EventOp → Option X} {m : Program W (Unit {0})} {xs : List X}
    → Shows view m xs
    → (d : ℕ) (w : World W) → (m d w).out ≡ returned tt
Shows-returned {m} k d w = unit_outcome (m d w).out (k.at d w).0
  where
    unit_outcome : (o : Outcome (Unit {0})) → IsReturned o → o ≡ returned tt
    unit_outcome (returned a) h = refl
    unit_outcome (thrown e) h = absurd h
    unit_outcome fault h = absurd h

module _ {W A B : Type 0} where
  continue_step :
      (o : Outcome A) (log : List Call) (w : World W) (f : A → World W → Run W B) (a : A)
      → o ≡ returned a
      → ((continue o log w f).out ≡ (f a w).out) × ((continue o log w f).log ≡ log ++ (f a w).log)
  continue_step (returned b) log w f a h = ground arith
  continue_step (thrown x) log w f a h = cc
  continue_step fault log w f a h = cc

  -- A block whose first program is known to return.
  pub bind_step :
      (m : Program W A) (f : A → Program W B) (d : ℕ) (w : World W) (a : A)
      → (m d w).out ≡ returned a
      → let r = (m >>= f) d w in
        let t = f a d (m d w).world in (r.out ≡ t.out) × (r.log ≡ (m d w).log ++ t.log)
  unfolding ◌>>=◌
  bind_step m f d w a h = continue_step (m d w).out _ _ (λ b. f b d) a h

  thrown_step :
      (o : Outcome A) (log : List Call) (w : World W) (f : A → World W → Run W B) (x : Exception)
      → o ≡ thrown x
      → let r = continue o log w f in (r.out ≡ thrown x) × (r.log ≡ log) × (r.world ≡ w)
  thrown_step (returned b) log w f x h = cc
  thrown_step (thrown y) log w f x h = let e : y ≡ x = cc in (ap thrown e, refl, refl)
  thrown_step fault log w f x h = cc

  -- A first part that throws is all there is.
  pub bind_thrown :
      (m : Program W A) (f : A → Program W B) (d : ℕ) (w : World W) (x : Exception)
      → (m d w).out ≡ thrown x
      → let r = (m >>= f) d w in
        (r.out ≡ thrown x) × (r.log ≡ (m d w).log) × (r.world ≡ (m d w).world)
  unfolding ◌>>=◌
  bind_thrown m f d w x h = thrown_step (m d w).out _ _ (λ b. f b d) x h

module _ {W A : Type 0} where
  -- A `try` whose body is known to return.
  pub caught_step :
      (o : Outcome A) (log : List Call) (w : World W) (handler : Exception → World W → Run W A)
      (a : A)
      → o ≡ returned a
      → ((caught o log w handler).out ≡ returned a) × ((caught o log w handler).log ≡ log)
  caught_step (returned b) log w handler a h = (h, refl)
  caught_step (thrown x) log w handler a h = cc
  caught_step fault log w handler a h = cc

module _ {W A B X : Type 0} (view : EventOp → Option X) where
  pub bind_seen :
      (m : Program W A) (f : A → Program W B) (d : ℕ) (w : World W) (a : A) (xs ys : List X)
      → (m d w).out ≡ returned a
      → seen view (m d w).log ≡ xs
      → Shows view (f a) ys
      → seen view ((m >>= f) d w).log ≡ xs ++ ys
  bind_seen m f d w a xs ys h e k =
      ap (seen view) (bind_step m f d w a h).1
      ∙ seen-append view (m d w).log _
      ∙ rw (e, (k.at d (m d w).world).1)
