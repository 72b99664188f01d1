-- ===== src/Mysql/Threads.antt =====
-- Requests on several threads. cpp-httplib runs each on a thread of its pool, and all of them use the one
-- `DatabaseDemo` behind `g_demo`: `connect` puts a new `Session` into `session_`, which destroys the one
-- that was there, and a query works on the session that it has read `session_` for.
-- The relation is a specification: `Mysql/Threads/Refined` shows that the code of a thread takes its steps.
-- `disconnect` is no step, since only the destructor of `DatabaseDemo` calls it, after `listen` has returned.
pub mod Steps
pub mod Refined
use pinpoint_cpp_examples.Common.{
  ℕ, suc, ◌<◌, ◌≡◌, ◌≢◌, refl, sym, ap, ◌∙◌, subst, Option, none, some, List, [], ◌∷◌, ◌==◌,
  ==_refl, ==_iff, if◌then◌else◌, All, Bool-cases, inl, inr, arith,
}

-- What a thread is doing: no request, between the queries of a demo, or a query on the session with this
-- number.
pub data Activity : Type 0 where
  idle : Activity
  between : Activity
  querying : (session : ℕ) → Activity

-- Sessions are numbered in the order of their construction. `session` is `session_`.
pub record Shared : Type 0 where
  pub session : Option ℕ
  pub made : ℕ
  pub threads : ℕ → Activity

abbrev pub set : ℕ → Activity → (ℕ → Activity) → ℕ → Activity
set t a threads u = if t == u then a else threads u

-- What a step is seen by: a session is made, a query begins, a query ends, a request ends.
pub data Label : Type 0 where
  connect : Label
  begin : Label
  end : Label
  finish : Label

-- A step of thread `t`.
pub data Step (t : ℕ) (w : Shared) : Label → Shared → Type 0 where
  connects :
      w.threads t ≡ idle
      → Step t w connect
          (record { session = some w.made; made = suc w.made; threads = set t between w.threads })
  -- An exception leaves `session_` as it was, and the handler answers 503.
  is_refused : w.threads t ≡ idle → Step t w finish w
  begins_query :
      (p : ℕ)
      → w.threads t ≡ between
      → w.session ≡ some p
      → Step t w begin (record w { threads = set t (querying p) w.threads })
  ends_query :
      (p : ℕ)
      → w.threads t ≡ querying p
      → Step t w end (record w { threads = set t between w.threads })
  answers : w.threads t ≡ between → Step t w finish (record w { threads = set t idle w.threads })

-- A run, with its steps, each a thread and what it is seen by, the last one first.
pub data Run (w : Shared) : List (ℕ × Label) → Shared → Type 0 where
  stays : Run w [] w
  goes :
      {ts : List (ℕ × Label)} {v u : Shared} (t : ℕ) (l : Label)
      → Run w ts v
      → Step t v l u
      → Run w ((t, l) ∷ ts) u

abbrev pub at_start : Shared
at_start = record { session = none; made = 0; threads = λ t. idle }

-- A thread is in a query on a session that has been destroyed.
abbrev pub Dangles : ℕ → Shared → Type 0
Dangles t w = (p : ℕ) × (w.threads t ≡ querying p) × (w.session ≢ some p)

-- Every session in use has a number below the count.
abbrev Numbered : Shared → Type 0
Numbered w =
    ((p : ℕ) → w.session ≡ some p → p < w.made)
    × ((t p : ℕ) → w.threads t ≡ querying p → p < w.made)

set_other :
    (t u : ℕ) (a : Activity) (threads : ℕ → Activity) → t ≢ u → set t a threads u ≡ threads u
set_other t u a threads apart = elim (Bool-cases (t == u)) [
  | inl e ↦ absurd (apart ((==_iff t u).0 e))
  | inr e ↦ rw e refl
]

-- A thread that sets itself to no query leaves the queries of the others.
kept_query :
    (t u p : ℕ) (a : Activity) (threads : ℕ → Activity)
    → a ≢ querying p
    → set t a threads u ≡ querying p
    → threads u ≡ querying p
kept_query t u p a threads other q = elim (Bool-cases (t == u)) [
  | inl e ↦ absurd (other (rw e at q))
  | inr e ↦ rw e at q
]

step-Numbered : (t : ℕ) (l : Label) (w v : Shared) → Numbered w → Step t w l v → Numbered v
step-Numbered t l w v (s, h) (connects e) = (
  λ p f. (let g : w.made ≡ p = cc in omega (arith, g)),
  λ u p q. (let k = h u p (kept_query t u p between w.threads (λ f. cc) q) in omega (arith, k)),
)
step-Numbered t l w v (s, h) (is_refused e) = (s, h)
step-Numbered t l w v (s, h) (begins_query p' e f) = (
  s,
  λ u p q. elim (Bool-cases (t == u)) [
    | inl g ↦
        let same : querying p' ≡ querying p = rw g at q in
        let number : w.session ≡ some p = cc in s p number
    | inr g ↦ h u p (rw g at q)
  ],
)
step-Numbered t l w v (s, h) (ends_query p' e) =
    (s, λ u p q. h u p (kept_query t u p between w.threads (λ f. cc) q))
step-Numbered t l w v (s, h) (answers e) =
    (s, λ u p q. h u p (kept_query t u p idle w.threads (λ f. cc) q))

run-Numbered : (ts : List (ℕ × Label)) (w : Shared) → Run at_start ts w → Numbered w
run-Numbered [] w stays = (λ p f. cc, λ t p f. cc)
run-Numbered (x ∷ ts) w (goes {v = v} t l r step) = step-Numbered t l v w (run-Numbered ts v r) step

-- With two threads this breaks, whatever came before: when one is in a query and another begins a request
-- that the server accepts, its `connect` leaves the first in a query on a destroyed session.
pub run-overlapping :
    (ts : List (ℕ × Label)) (w : Shared) (t u p : ℕ)
    → Run at_start ts w
    → w.threads t ≡ querying p
    → w.threads u ≡ idle
    → (v : Shared) × Run at_start ((u, connect) ∷ ts) v × Dangles t v
run-overlapping ts w t u p r e f =
    let below = (run-Numbered ts w r).1 t p e in
    (
      record { session = some w.made; made = suc w.made; threads = set u between w.threads },
      goes u connect r (connects f),
      (
        p,
        set_other u t between w.threads apart ∙ e,
        λ g. (let number : w.made ≡ p = cc in omega (arith, number, below)),
      ),
    )
  where
    apart : u ≢ t
    apart same = let q : idle ≡ querying p = sym f ∙ ap w.threads same ∙ e in cc
