-- ===== src/Http/Server.antt =====
-- A thread of an HTTP server: requests one after the other, each answered by a program of the request
-- and of the span that the agent makes for it.
use pinpoint_cpp_examples.Common.{ℕ, suc, ◌≡◌, refl, ◌∙◌, none, some, List, [], ◌∷◌}
use pinpoint_cpp_examples.Trace.{Call}
use pinpoint_cpp_examples.Trace.Program.{
  Program, World, Outcome, returned, thrown, fault, continue, pure, Run, ◌>>=◌,
}
use pinpoint_cpp_examples.Trace.Protocol.{closed, run, run-append}
use pinpoint_cpp_examples.Trace.Meets.{Returns}
use pinpoint_cpp_examples.Http.{Request, Response}

-- The spans are numbered in the order in which they are made.
unfoldable pub serve_all :
    {W : Type 0} → (ℕ → Request → Program W Response) → List Request → ℕ → Program W (List Response)
serve_all serve [] s = pure []
serve_all serve (req ∷ reqs) s = do
  res ← serve s req
  rest ← serve_all serve reqs (suc s)
  pure (res ∷ rest)

-- Each request has the response that `P` says.
abbrev pub Responses : (Request → Response → Type 0) → List Request → List Response → Type 0
Responses P [] [] = Unit {0}
Responses P (req ∷ reqs) (res ∷ rest) = P req res × Responses P reqs rest
Responses P _ _ = ⊥

-- A run on a thread without a span: it returns, and leaves no span behind.
abbrev pub Leaves : {W A : Type 0} → (A → W → Type 0) → Run W A → Type 0
Leaves Q r =
    (run closed r.log ≡ some closed) × (r.world.current ≡ none) × Returns Q r.out r.world.env

pub record Serves {W A : Type 0} (I : W → Type 0) (m : Program W A) (Q : A → W → Type 0)
    : Type 0 where
  pub at : (w : World W) → w.current ≡ none → I w.env → Leaves Q (m 0 w)

module _ {W A B : Type 0} (Q : A → W → Type 0) (R : B → W → Type 0) where
  continue-Leaves :
      (o : Outcome A) (log : List Call) (w : World W) (f : A → World W → Run W B)
      → Leaves Q (record { log = log; out = o; world = w })
      → ((a : A) → Q a w.env → Leaves R (f a w))
      → Leaves R (continue o log w f)
  continue-Leaves (returned a) log w f (closes, clear, holds) k =
      let (ends, cleared, more) = k a holds in
      (run-append closed closed log _ closes ∙ ends, cleared, more)
  continue-Leaves (thrown e) log w f (closes, clear, holds) k = absurd holds
  continue-Leaves fault log w f (closes, clear, holds) k = absurd holds

weakened :
    {W A : Type 0} (Q R : A → W → Type 0) (o : Outcome A) (w : W)
    → ((a : A) (v : W) → Q a v → R a v)
    → Returns Q o w
    → Returns R o w
weakened Q R (returned a) w h q = h a w q
weakened Q R (thrown e) w h q = absurd q
weakened Q R fault w h q = absurd q

module _ {W A : Type 0} {I : W → Type 0} where
  pub Serves-pure : (a : A) {Q : A → W → Type 0} → ((w : W) → I w → Q a w) → Serves I (pure a) Q
  unfolding pure run
  Serves-pure a k = record { at = λ w c i. (refl, c, k w.env i) }

  pub Serves-weaken :
      {m : Program W A} {Q R : A → W → Type 0}
      → Serves I m Q
      → ((a : A) (w : W) → Q a w → R a w)
      → Serves I m R
  Serves-weaken {m} {Q} {R} k h = record {
    at = λ w c i.
        let (closes, clear, holds) = k.at w c i in
        (closes, clear, weakened Q R (m 0 w).out (m 0 w).world.env h holds);
  }

  pub Serves-bind :
      {B : Type 0} {m : Program W A} {f : A → Program W B} (Q : A → W → Type 0) {R : B → W → Type 0}
      → Serves I m Q
      → ((a : A) → Serves (Q a) (f a) R)
      → Serves I (m >>= f) R
  unfolding ◌>>=◌
  Serves-bind Q {R} km kf = record {
    at = λ w c i. let h = km.at w c i in continue-Leaves Q R _ _ _ _ h (λ a q. (kf a).at _ h.1 q);
  }

module _ {W : Type 0} {I : W → Type 0} (P : Request → Response → Type 0)
    (serve : ℕ → Request → Program W Response) where
  -- If every request leaves no span behind, so does a thread that serves any number of them.
  pub serve_all-Serves :
      ((s : ℕ) (req : Request) → Serves I (serve s req) (λ res w. P req res × I w))
      → (reqs : List Request) (s : ℕ)
      → Serves I (serve_all serve reqs s) (λ rs w. Responses P reqs rs × I w)
  unfolding serve_all
  serve_all-Serves k [] s = Serves-pure [] (λ w i. (tt, i))
  serve_all-Serves k (req ∷ reqs) s =
      Serves-bind (λ res w. P req res × I w) (k s req)
        λ res. record {
          at = λ w c h.
              (Serves-bind {I = I} (λ rs v. Responses P reqs rs × I v)
                  (serve_all-Serves k reqs (suc s))
                  (λ rest. Serves-pure (res ∷ rest) (λ v i. ((h.0, i.0), i.1)))).at
                w c h.1;
        }
