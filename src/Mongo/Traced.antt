-- ===== src/Mongo/Traced.antt =====
-- What a MongoDB request records and what it answers.
use pinpoint_cpp_examples.Common.{
  ℕ, suc, ◌≡◌, refl, ap, ◌∙◌, Bool, true, false, Option, none, some, List, [], ◌∷◌, ◌++◌,
  append-nil, Text, lit,
}
use pinpoint_cpp_examples.Trace.{EventOp, set_sql_query}
use pinpoint_cpp_examples.Trace.Program.{
  World, Run, Answer, value, throws, returned, what, continue, caught, outcome, ask, pure, ◌>>◌,
  ◌>>=◌,
}
use pinpoint_cpp_examples.Trace.Balanced.{IsBalanced, Anything, balanced}
use pinpoint_cpp_examples.Trace.Shows.{
  Shows, Shows-pure, Shows-scoped, Shows-on_event, Shows-try_ask, Shows-bind, Shows-returned, seen,
  seen-scope, bind_step, bind_seen, caught_step,
}
use pinpoint_cpp_examples.Http.{Request, Response, set_content}
use pinpoint_cpp_examples.Mongo.Demo.{
  Mongocxx, trace_mongo_op, run_operations, run_mongo_demo, report, handle_run_demo, success_body,
  failure_body,
}

trace_mongo_op-IsBalanced :
    {W : Type 0} {s d : ℕ} (name coll desc : Text) (f : W → Answer (Unit {0}) × W)
    → IsBalanced Anything s d (trace_mongo_op (some s) name coll desc (ask f))
unfolding trace_mongo_op
trace_mongo_op-IsBalanced name coll desc f = search balanced depth 20

report-IsBalanced :
    (driver : Mongocxx) (uri : Text) {s d : ℕ} (res : Response) (r : Bool × Text)
    → IsBalanced Anything s (suc d) (report driver uri d res r)
unfolding report
report-IsBalanced driver uri res (true, e) = search balanced
report-IsBalanced driver uri res (false, e) = search balanced depth 12

pub handle_run_demo-IsBalanced :
    (driver : Mongocxx) (uri : Text) (s : ℕ) (req : Request) (res : Response)
    → IsBalanced Anything s 0 (handle_run_demo driver uri req res)
unfolding handle_run_demo run_mongo_demo run_operations
handle_run_demo-IsBalanced driver uri s req res =
    search (balanced, trace_mongo_op-IsBalanced, report-IsBalanced) depth 24

-- The text of a recorded query.
abbrev pub query_text : EventOp → Option Text
query_text (set_sql_query text args) = some text
query_text _ = none

abbrev pub described : Text → Text
described query = lit "Collection: " ++ (lit "testcollection" ++ (lit ", Query: " ++ query))

abbrev pub queries : List Text
queries =
    described (lit "Insert {name: 'MongoDB', type: 'database'}")
    ∷ described (lit "Find {name: 'MongoDB'}")
    ∷ described (lit "Update {name: 'MongoDB'} set {i: 110}")
    ∷ described (lit "Delete {name: 'MongoDB'}")
    ∷ []

trace_mongo_op-Shows :
    {W : Type 0} (span : Option ℕ) (name coll desc : Text) (f : W → Answer (Unit {0}) × W)
    → Shows query_text
        (trace_mongo_op span name coll desc (ask f))
        ((lit "Collection: " ++ (coll ++ (lit ", Query: " ++ desc))) ∷ [])
unfolding trace_mongo_op
trace_mongo_op-Shows span name coll desc f = Shows-scoped _ _ _ _ λ e.
    Shows-bind (Shows-on_event e _) λ _.
      Shows-bind (Shows-on_event e _)
        λ _. Shows-bind (Shows-on_event e _) λ _. Shows-try_ask f (λ x. Shows-on_event e _)

abbrev pub queries_of : Answer (Unit {0}) → List Text
queries_of (value u) = queries
queries_of (throws x) = []

-- The response to a request whose client was, or was not, constructed.
abbrev pub response_of : Text → Response → Answer (Unit {0}) → Response
response_of uri res (value u) =
    set_content (success_body uri) (lit "application/json") (record res { status = 200 })
response_of uri res (throws x) =
    set_content (failure_body (what x)) (lit "application/json") (record res { status = 503 })

-- `success` and `error` after the attempt to construct the client.
result_of : Answer (Unit {0}) → Bool × Text
result_of (value u) = (true, [])
result_of (throws x) = (false, what x)

module _ (driver : Mongocxx) (uri : Text) where
  run_operations-Shows :
      (span : Option ℕ) → Shows query_text (run_operations driver uri span) queries
  unfolding run_operations
  run_operations-Shows span = Shows-bind (trace_mongo_op-Shows span _ _ _ _) λ _.
      Shows-bind (trace_mongo_op-Shows span _ _ _ _)
        λ _. Shows-bind (trace_mongo_op-Shows span _ _ _ _) λ _. trace_mongo_op-Shows span _ _ _ _

  report-Shows :
      (e : ℕ) (res : Response) (r : Bool × Text) → Shows query_text (report driver uri e res r) []
  unfolding report
  report-Shows e res (true, error) = Shows-pure _
  report-Shows e res (false, error) = Shows-bind (Shows-on_event e _) λ _. Shows-pure _

  abbrev operate :
      Option ℕ → ℕ → Answer (Unit {0}) → World driver.Env → Run driver.Env (Bool × Text)
  operate span d a w =
      let r =
        continue (outcome a) [] w (λ _. (run_operations driver uri span >> pure (true, [])) d) in
      caught r.out r.log r.world (λ x. pure (false, what x) d)

  operate_lem :
      (span : Option ℕ) (d : ℕ) (a : Answer (Unit {0})) (w : World driver.Env)
      → ((operate span d a w).out ≡ returned (result_of a))
        × (seen query_text (operate span d a w).log ≡ queries_of a)
  unfolding result_of ◌>>=◌ seen
  operate_lem span d (throws x) w = (refl, refl)
  operate_lem span d (value u) w =
      let stepped =
        bind_step (run_operations driver uri span) (λ _. pure (true, [])) d w tt
          (Shows-returned (run_operations-Shows span) d w) in
      let kept = caught_step _ _ _ (λ x. pure (false, what x) d) (true, []) stepped.0 in
      (
        kept.0,
        ap (seen query_text) (kept.1 ∙ stepped.1)
            ∙ rw append-nil ((run_operations-Shows span).at d w).1,
      )

  report-out :
      (a : Answer (Unit {0})) (e d : ℕ) (res : Response) (w : World driver.Env)
      → (report driver uri e res (result_of a) d w).out ≡ returned (response_of uri res a)
  unfolding result_of report ◌>>=◌
  report-out (value u) e d res w = refl
  report-out (throws x) e d res w = refl

  run_mongo_demo-out :
      (span : Option ℕ) (d : ℕ) (w : World driver.Env)
      → let a = (driver.connect uri w.env).0 in
        let r = run_mongo_demo driver uri span d w in
        (r.out ≡ returned (result_of a)) × (seen query_text r.log ≡ queries_of a)
  unfolding run_mongo_demo ◌>>=◌
  run_mongo_demo-out span d w =
      operate_lem span d (driver.connect uri w.env).0
        (record w { env = (driver.connect uri w.env).1 })

  -- A MongoDB request always gets a response, and only the construction of the client decides which: the
  -- body lists the four operations with status 200, or carries the exception's text with status 503. What
  -- the operations themselves throw does not show. With a client the span events record exactly the four
  -- queries, in order; without one they record none.
  pub handle_run_demo-out :
      (req : Request) (res : Response) (d : ℕ) (w : World driver.Env)
      → let a = (driver.connect uri w.env).0 in
        let r = handle_run_demo driver uri req res d w in
        (r.out ≡ returned (response_of uri res a)) × (seen query_text r.log ≡ queries_of a)
  unfolding handle_run_demo ◌>>=◌ seen
  handle_run_demo-out req res d w =
      let a = (driver.connect uri w.env).0 in
      let m = run_mongo_demo driver uri w.current in
      let f = report driver uri d res in
      let demo = run_mongo_demo-out w.current (suc d) w in
      let r = (m >>= f) (suc d) w in
      (
        (bind_step m f (suc d) w (result_of a) demo.0).0 ∙ report-out a d (suc d) res _,
        seen-scope query_text r.log r.out d
            ∙ bind_seen query_text m f (suc d) w (result_of a) _ _ demo.0 demo.1
                (report-Shows d res (result_of a))
            ∙ append-nil _,
      )
