-- ===== src/Trace/Does.antt =====
-- Programs whose result and whose environment afterwards are known, on a thread with the span `s` of
-- which `d` events are open; they leave the span as they found it.
use pinpoint_cpp_examples.Common.{
  ℕ, suc, ◌<◌, ◌≡◌, refl, sym, ap, ◌∙◌, subst, Option, some, List, [], ◌∷◌, Text, ==_refl, lt→ltb,
}
use pinpoint_cpp_examples.Trace.{Call, ServiceType, SpanOp, EventOp, on_span, on_event, end_event}
use pinpoint_cpp_examples.Trace.Program.{
  Program, Run, World, Outcome, returned, thrown, fault, continue, pure, scoped, emit,
  get_span_context, ◌>>=◌,
}
use pinpoint_cpp_examples.Trace.Protocol.{open_span, run, run-append}
use pinpoint_cpp_examples.Trace.Balanced.{IsBalanced, Anything, Keeps}

abbrev pub Did : {W A : Type 0} → ℕ → ℕ → Run W A → A → W → Type 0
Did s d r a u =
    (r.out ≡ returned a)
    × (r.world ≡ record { current = some s; env = u })
    × (run (open_span s d) r.log ≡ some (open_span s d))

pub record Does {W A : Type 0} (s d : ℕ) (m : Program W A) (v : W) (a : A) (u : W) : Type 0 where
  pub at : Did s d (m d (record { current = some s; env = v })) a u

module _ {W A B : Type 0} (s d : ℕ) where
  continue-Did :
      (o : Outcome A) (log : List Call) (w : World W) (f : A → World W → Run W B) (a : A) (b : B)
      (u t : W)
      → Did s d (record { log = log; out = o; world = w }) a u
      → Did s d (f a (record { current = some s; env = u })) b t
      → Did s d (continue o log w f) b t
  continue-Did (returned x) log w f a b u t (e, same, kept) h =
      let x_is_a : x ≡ a = cc in
      rw (x_is_a, same) (h.0, h.1, run-append _ (open_span s d) log _ kept ∙ h.2)
  continue-Did (thrown x) log w f a b u t (e, same, kept) h = cc
  continue-Did fault log w f a b u t (e, same, kept) h = cc

module _ {W A B : Type 0} {s d : ℕ} where
  pub Does-bind :
      {m : Program W A} (f : A → Program W B) {a : A} {b : B} {v u t : W}
      → Does s d m v a u
      → Does s d (f a) u b t
      → Does s d (m >>= f) v b t
  unfolding ◌>>=◌
  Does-bind f {a} {b} {u} {t} km kf = record {
    at = continue-Did s d _ _ _ (λ x. f x d) a b u t km.at kf.at;
  }

module _ {W A : Type 0} {s d : ℕ} where
  pub Does-pure : (a : A) {v : W} → Does s d (pure a) v a v
  unfolding pure run
  Does-pure a = record { at = (refl, refl, refl) }

  pub Does-get_span_context :
      (f : Option ℕ → Program W A) {v : W} {a : A} {u : W}
      → Does s d (f (some s)) v a u
      → Does s d (get_span_context >>= f) v a u
  unfolding ◌>>=◌
  Does-get_span_context f k = record { at = k.at }

  pub Does-scoped :
      (name : Text) (type : ServiceType) (body : ℕ → Program W A) {v : W} {a : A} {u : W}
      → Does s (suc d) (body d) v a u
      → Does s d (scoped (some s) name type body) v a u
  unfolding scoped run
  Does-scoped name type body {v} k =
      let (e, same, kept) = k.at in
      record {
        at = (
          e,
          same,
          rw (==_refl s, ==_refl d, e)
              (run-append (open_span s (suc d)) (open_span s (suc d))
                  (body d (suc d) (record { current = some s; env = v })).log (end_event d ∷ [])
                  kept
                ∙ rw (==_refl d)),
        );
      }

  pub Does-to :
      {m : Program W A} {v : W} {a : A} {u t : W} → u ≡ t → Does s d m v a u → Does s d m v a t
  Does-to {m} {v} {a} e k = subst (Does s d m v a) e k

  does-Keeps :
      (o : Outcome A) (log : List Call) (w : World W) (a : A) (u : W)
      → Did s d (record { log = log; out = o; world = w }) a u
      → Keeps Anything s d (record { log = log; out = o; world = w })
  does-Keeps (returned x) log w a u (e, same, kept) = (kept, ap (λ v. v.current) same, tt, tt)
  does-Keeps (thrown x) log w a u (e, same, kept) = cc
  does-Keeps fault log w a u (e, same, kept) = cc

  pub Does-IsBalanced :
      (m : Program W A)
      → ((v : W) → (a : A) × ((u : W) × Does s d m v a u))
      → IsBalanced Anything s d m
  Does-IsBalanced m k = record {
    at = λ w h i.
        let (a, (u, does)) = k w.env in
        let v : World W = record { current = some s; env = w.env } in
        let same : v ≡ w = ap (λ c. record { current = c; env = w.env }) (sym h) in
        let r = m d v in
        subst (λ x. Keeps Anything s d (m d x)) same (does-Keeps r.out r.log r.world a u does.at);
  }

module _ {W : Type 0} {s d : ℕ} where
  pub Does-on_span : (op : SpanOp) {v : W} → Does s d (emit (on_span s op)) v tt v
  unfolding emit run
  Does-on_span op = record { at = (refl, refl, rw (==_refl s)) }

  pub Does-on_event :
      {e : ℕ} (op : EventOp) {v : W} → e < d → Does s d (emit (on_event e op)) v tt v
  unfolding emit run
  Does-on_event op h = record { at = (refl, refl, rw (lt→ltb _ _ h)) }
