-- ===== src/Trace/Resources.antt =====
-- Who owns what the C interfaces hand out: how many objects of a kind the code holds along a log.
use pinpoint_cpp_examples.Common.{
  ℕ, zero, suc, ◌≡◌, refl, ◌∙◌, Bool, true, false, inl, inr, Option, none, some, List, [], ◌∷◌,
  ◌++◌, Text, ◌==◌, if◌then◌else◌, Option-cases, arith,
}
use pinpoint_cpp_examples.Trace.{
  Call, EventOp, SpanOp, ServiceType, Carrier, Resource, redis_context, redis_reply, curl_handle,
  curl_list, kafka_headers_object, kafka_message, mysql_session, acquire, release, adopt, on_event,
  on_span, new_span, end_span,
}
use pinpoint_cpp_examples.Trace.Program.{
  Program, Run, World, Outcome, returned, thrown, fault, Answer, outcome, closing, continue, pure,
  ask, scoped, emit, get_span_context, ◌>>=◌,
}
use pinpoint_cpp_examples.Trace.Shows.{IsReturned}

abbrev number : Resource → ℕ
number redis_context = 0
number redis_reply = 1
number curl_handle = 2
number curl_list = 3
number kafka_headers_object = 4
number kafka_message = 5
number mysql_session = 6

-- The count of `r` when one more `q` is held.
unfoldable pub one_more : Resource → Resource → ℕ → ℕ
one_more q r a = if number q == number r then suc a else a

pub one_more_comm :
    (p q r : Resource) (a : ℕ) → one_more p r (one_more q r a) ≡ one_more q r (one_more p r a)
unfolding one_more
one_more_comm p q r a = ground arith

give_back : Resource → Resource → ℕ → Option ℕ
give_back q r zero = if number q == number r then none else some zero
give_back q r (suc a) = some (if number q == number r then a else suc a)

unfoldable pub hold_step : Resource → ℕ → Call → Option ℕ
unfolding give_back one_more
hold_step r a (acquire q) = some (one_more q r a)
hold_step r a (release q) = give_back q r a
hold_step r a (adopt q) = give_back q r a
hold_step r a _ = some a

and_then : Option ℕ → (ℕ → Option ℕ) → Option ℕ
and_then none f = none
and_then (some a) f = f a

-- The count of `r` after a log that starts with `a`; `none` when one is given back that is not held.
unfoldable pub held : Resource → ℕ → List Call → Option ℕ
unfolding hold_step and_then
held r a [] = some a
held r a (c ∷ cs) = and_then (hold_step r a c) (λ b. held r b cs)

pub held-append :
    (r : Resource) (a b : ℕ) (xs ys : List Call)
    → held r a xs ≡ some b
    → held r a (xs ++ ys) ≡ held r b ys
unfolding held
held-append r a b [] ys h = ground arith
held-append r a b (x ∷ xs) ys h = elim (Option-cases (hold_step r a x)) [
  | inl e ↦ cc
  | inr (c, e) ↦ rw (e, and_then) (held-append r c b xs ys (rw e at h))
]

pub held-closing :
    {A : Type 0} (r : Resource) (a : ℕ) (o : Outcome A) (d : ℕ) → held r a (closing o d) ≡ some a
unfolding held
held-closing r a (returned x) d = refl
held-closing r a (thrown e) d = refl
held-closing r a fault d = refl

-- A program that returns, and takes the count of `r` from `a` to `b`.
pub record Owes {W A : Type 0} (r : Resource) (a b : ℕ) (m : Program W A) : Type 0 where
  pub at : (d : ℕ) (w : World W) → IsReturned (m d w).out × (held r a (m d w).log ≡ some b)

module _ {W A : Type 0} {r : Resource} {a : ℕ} where
  pub Owes-pure : (x : A) → Owes {W = W} r a a (pure x)
  unfolding pure held
  Owes-pure x = record { at = λ d w. (tt, refl) }

  -- A call of a C library.
  pub Owes-ask :
      (f : W → Answer A × W) → ((w : W) → IsReturned (outcome (f w).0)) → Owes r a a (ask f)
  unfolding ask held
  Owes-ask f k = record { at = λ d w. (k w.env, refl) }

  pub Owes-scoped :
      {b : ℕ} (s : Option ℕ) (name : Text) (type : ServiceType) (body : ℕ → Program W A)
      → ((d : ℕ) → Owes r a b (body d))
      → Owes r a b (scoped s name type body)
  unfolding scoped held
  Owes-scoped {b} s name type body k = record {
    at = λ d w.
        let (ended, kept) = (k d).at (suc d) w in
        (ended, held-append r a b (body d (suc d) w).log _ kept ∙ held-closing r b _ d);
  }

module _ {W : Type 0} {r : Resource} {a : ℕ} where
  pub Owes-on_event : (e : ℕ) (op : EventOp) → Owes {W = W} r a a (emit (on_event e op))
  unfolding emit held
  Owes-on_event e op = record { at = λ d w. (tt, refl) }

  pub Owes-on_span : (s : ℕ) (op : SpanOp) → Owes {W = W} r a a (emit (on_span s op))
  unfolding emit held
  Owes-on_span s op = record { at = λ d w. (tt, refl) }

  pub Owes-new_span :
      (s : ℕ) (app rpc : Text) (carrier : Option Carrier)
      → Owes {W = W} r a a (emit (new_span s app rpc carrier))
  unfolding emit held
  Owes-new_span s app rpc carrier = record { at = λ d w. (tt, refl) }

  pub Owes-end_span : (s : ℕ) → Owes {W = W} r a a (emit (end_span s))
  unfolding emit held
  Owes-end_span s = record { at = λ d w. (tt, refl) }

  pub Owes-get_span_context : Owes {W = W} r a a get_span_context
  unfolding get_span_context held
  Owes-get_span_context = record { at = λ d w. (tt, refl) }

  pub Owes-acquire : (q : Resource) → Owes {W = W} r a (one_more q r a) (emit (acquire q))
  unfolding emit held
  Owes-acquire q = record { at = λ d w. (tt, refl) }

gives_back : (q r : Resource) (a : ℕ) → give_back q r (one_more q r a) ≡ some a
unfolding give_back one_more
gives_back q r zero = ground arith
gives_back q r (suc a) = ground arith

module _ {W : Type 0} {r : Resource} {a : ℕ} where
  pub Owes-release : (q : Resource) → Owes {W = W} r (one_more q r a) a (emit (release q))
  unfolding emit held
  Owes-release q = record { at = λ d w. (tt, rw (gives_back q r a)) }

  pub Owes-adopt : (q : Resource) → Owes {W = W} r (one_more q r a) a (emit (adopt q))
  unfolding emit held
  Owes-adopt q = record { at = λ d w. (tt, rw (gives_back q r a)) }

module _ {W A B : Type 0} (r : Resource) (a b c : ℕ) where
  continue-owes :
      (o : Outcome A) (log : List Call) (w : World W) (f : A → World W → Run W B)
      → IsReturned o
      → held r a log ≡ some b
      → ((x : A) → IsReturned (f x w).out × (held r b (f x w).log ≡ some c))
      → IsReturned (continue o log w f).out × (held r a (continue o log w f).log ≡ some c)
  continue-owes (returned x) log w f h e k =
      ((k x).0, held-append r a b log (f x w).log e ∙ (k x).1)
  continue-owes (thrown x) log w f h e k = absurd h
  continue-owes fault log w f h e k = absurd h

module _ {W A B : Type 0} {r : Resource} {a b c : ℕ} where
  pub Owes-bind :
      {m : Program W A} {f : A → Program W B}
      → Owes r a b m
      → ((x : A) → Owes r b c (f x))
      → Owes r a c (m >>= f)
  unfolding ◌>>=◌
  Owes-bind km kf = record {
    at = λ d w. continue-owes r a b c _ _ _ _ (km.at d w).0 (km.at d w).1 (λ x. (kf x).at d _);
  }

module _ {W A : Type 0} {r : Resource} {a b : ℕ} where
  pub Owes-if :
      (t : Bool) {m n : Program W A} → Owes r a b m → Owes r a b n → Owes r a b (if t then m else n)
  Owes-if true km kn = km
  Owes-if false km kn = kn
