-- ===== src/Mysql/Threads/Steps.antt =====
-- What the calls of a thread are in the relation of `Mysql/Threads`.
use pinpoint_cpp_examples.Common.{
  ℕ, suc, ◌≡◌, refl, sym, ap, ◌∙◌, subst, Bool, true, false, Option, none, some, List, [], ◌∷◌,
  ==_refl, Option-cases, inl, inr,
}
use pinpoint_cpp_examples.Trace.{
  Call, EventOp, Resource, mysql_session, set_sql_query, acquire, on_event, end_span,
}
use pinpoint_cpp_examples.Mysql.Phases.{
  Phase, waiting, working, Standing, session_step, take_step, query_step,
}
use pinpoint_cpp_examples.Mysql.Threads.{
  Activity, idle, between, querying, Shared, set, Label, connect, begin, end, finish, connects,
  is_refused, begins_query, ends_query, answers, Run, goes, at_start,
}

abbrev pub has_session : Option ℕ → Bool
has_session none = false
has_session (some p) = true

abbrev pub activity : Phase → Activity
activity waiting = idle
activity working = between

-- The steps of thread `t` that a call is, in front of those that came before: a session is made, a traced
-- statement begins a query and ends it, and the end of the span ends the request. Other calls are none.
abbrev pub seen_by : ℕ → Call → List (ℕ × Label) → List (ℕ × Label)
seen_by t (acquire mysql_session) ts = (t, connect) ∷ ts
seen_by t (on_event e (set_sql_query sql params)) ts = (t, end) ∷ (t, begin) ∷ ts
seen_by t (end_span s) ts = (t, finish) ∷ ts
seen_by t _ ts = ts

-- The steps of a log, call by call, the last one first.
abbrev pub recorded : ℕ → List Call → List (ℕ × Label) → List (ℕ × Label)
recorded t [] ts = ts
recorded t (c ∷ cs) ts = recorded t cs (seen_by t c ts)

-- Thread `t` stands at `q`.
abbrev pub Stands : ℕ → Standing → Shared → Type 0
Stands t q w = (w.threads t ≡ activity q.0) × (has_session w.session ≡ q.1)

set_self : (t : ℕ) (a : Activity) (threads : ℕ → Activity) → set t a threads t ≡ a
set_self t a threads = rw (==_refl t) refl

module _ (t : ℕ) (ts : List (ℕ × Label)) (w : Shared) (r : Run at_start ts w) where
  -- A run to where the thread stands at `q`.
  abbrev pub Reaches : Standing → List (ℕ × Label) → Type 0
  Reaches q more = (v : Shared) × Stands t q v × Run at_start more v

  -- Nothing happens.
  pub rests : (q p : Standing) → q ≡ p → Stands t q w → Reaches p ts
  rests q p same h = (w, subst (λ x. Stands t x w) same h, r)

  takes_session :
      (q p : Standing)
      → take_step mysql_session q ≡ some p
      → Stands t q w
      → Reaches p ((t, connect) ∷ ts)
  takes_session (waiting, has) p e (at, there) =
      let v : Shared = record {
        session = some w.made;
        made = suc w.made;
        threads = set t between w.threads;
      } in
      let same : (working, true) ≡ p = cc in
      (
        v,
        subst (λ x. Stands t x v) same (set_self t between w.threads, refl),
        goes t connect r (connects at),
      )
  takes_session (working, has) p e h = cc

  query :
      (number : ℕ)
      → w.session ≡ some number
      → w.threads t ≡ between
      → Reaches (working, true) ((t, end) ∷ (t, begin) ∷ ts)
  query number e at =
      let during : Shared = record w { threads = set t (querying number) w.threads } in
      let v : Shared = record w { threads = set t between during.threads } in
      (
        v,
        (set_self t between during.threads, ap has_session e),
        goes t end (goes t begin r (begins_query number at e))
            (ends_query number (set_self t (querying number) w.threads)),
      )

  traces :
      (op : EventOp) (e : ℕ) (q p : Standing)
      → query_step op q ≡ some p
      → Stands t q w
      → Reaches p (seen_by t (on_event e op) ts)
  traces (set_sql_query sql params) e (working, true) p same (at, there) =
      elim (Option-cases w.session) [
        | inl gone ↦ (let no : false ≡ true = sym (ap has_session gone) ∙ there in cc)
        | inr (number, found) ↦
            let to_p : (working, true) ≡ p = cc in
            let (v, stands, run) = query number found at in
            (v, subst (λ x. Stands t x v) to_p stands, run)
      ]
  traces (set_sql_query sql params) e (working, false) p same h = cc
  traces (set_sql_query sql params) e (waiting, has) p same h = cc
  traces _ e q p same h = let to_p : q ≡ p = cc in rests q p to_p h

  acquires :
      (x : Resource) (q p : Standing)
      → take_step x q ≡ some p
      → Stands t q w
      → Reaches p (seen_by t (acquire x) ts)
  acquires mysql_session q p e h = takes_session q p e h
  acquires _ q p same h = let to_p : q ≡ p = cc in rests q p to_p h

  ends_request : (q : Standing) → Stands t q w → Reaches (waiting, q.1) ((t, finish) ∷ ts)
  ends_request (waiting, has) (at, there) = (w, (at, there), goes t finish r (is_refused at))
  ends_request (working, has) (at, there) =
      let v : Shared = record w { threads = set t idle w.threads } in
      (v, (set_self t idle w.threads, there), goes t finish r (answers at))

  pub session_step-Reaches :
      (c : Call) (q p : Standing)
      → session_step q c ≡ some p
      → Stands t q w
      → Reaches p (seen_by t c ts)
  session_step-Reaches (acquire x) q p same h = acquires x q p same h
  session_step-Reaches (on_event e op) q p same h = traces op e q p same h
  session_step-Reaches (end_span s) q p same h =
      let to_p : (waiting, q.1) ≡ p = cc in
      let (v, stands, run) = ends_request q h in (v, subst (λ x. Stands t x v) to_p stands, run)
  session_step-Reaches _ q p same h = let to_p : q ≡ p = cc in rests q p to_p h
