-- ===== src/Mysql/Threads/Refined.antt =====
-- The calls of a thread are, one by one, steps of the relation in `Mysql/Threads`.
use pinpoint_cpp_examples.Common.{ℕ, ◌≡◌, refl, subst, Option, some, List, [], ◌∷◌}
use pinpoint_cpp_examples.Trace.{Call}
use pinpoint_cpp_examples.Trace.Program.{World}
use pinpoint_cpp_examples.Trace.Drives.{drive, drive_nil, drive_split}
use pinpoint_cpp_examples.Trace.Meets.{Returns-returned}
use pinpoint_cpp_examples.Http.{Request, Response}
use pinpoint_cpp_examples.Http.Server.{serve_all}
use pinpoint_cpp_examples.Mysql.Session.{DatabaseConfig, Mysqlx, Database}
use pinpoint_cpp_examples.Mysql.Server.{Endpoint, serve}
use pinpoint_cpp_examples.Mysql.Phases.{waiting, Standing, session_step}
use pinpoint_cpp_examples.Mysql.Phases.Driven.{serve_all-Drives}
use pinpoint_cpp_examples.Mysql.Threads.{idle, Shared, Label, Run, at_start}
use pinpoint_cpp_examples.Mysql.Threads.Steps.{
  has_session, seen_by, recorded, Stands, rests, session_step-Reaches,
}

run-Reaches :
    (t : ℕ) (cs : List Call) (ts : List (ℕ × Label)) (w : Shared) (q p : Standing)
    → Run at_start ts w
    → drive session_step q cs ≡ some p
    → Stands t q w
    → (v : Shared) × Stands t p v × Run at_start (recorded t cs ts) v
run-Reaches t [] ts w q p r accepted h = rests t ts w r q p (drive_nil session_step q p accepted) h
run-Reaches t (c ∷ cs) ts w q p r accepted h =
    let (q', stepped, rest) = drive_split session_step q p c cs accepted in
    let (v, stands, reached) = session_step-Reaches t ts w r c q q' stepped h in
    run-Reaches t cs (seen_by t c ts) v q' p reached rest stands

-- The log of requests that a thread serves one after the other, in any state that the threads can reach
-- and in which it is idle and finds `session_` as the relation has it, is a run of the relation, call by
-- call: where the session is acquired the thread connects, each traced statement begins a query on the
-- session that is there and ends it, and where the span ends the request ends; other calls are no step.
-- Behind them the thread is idle and `session_` is again as the relation has it.
pub serve_all-Run :
    (driver : Mysqlx) (config : DatabaseConfig) (route : Request → Option Endpoint)
    (blank : Response) (reqs : List Request) (s t : ℕ) (ts : List (ℕ × Label)) (w : Shared)
    (now : World (Database driver.Env))
    → Run at_start ts w
    → w.threads t ≡ idle
    → has_session w.session ≡ now.env.has_session
    → let r = serve_all (serve driver config route blank) reqs s 0 now in
      (v : Shared) × Run at_start (recorded t r.log ts) v
      × (v.threads t ≡ idle)
      × (has_session v.session ≡ r.world.env.has_session)
serve_all-Run driver config route blank reqs s t ts w now reached at there =
    let r = serve_all (serve driver config route blank) reqs s 0 now in
    let (p, accepted, returns) =
      (serve_all-Drives driver config route blank reqs s).at 0 now (waiting, now.env.has_session)
        refl in
    let (out, returned, same) =
      Returns-returned (λ rs (db : Database driver.Env). p ≡ (waiting, db.has_session)) _ _
        returns in
    let (v, stands, more) =
      run-Reaches t r.log ts w (waiting, now.env.has_session) p reached accepted (at, there) in
    let (idles, agrees) = subst (λ x. Stands t x v) same stands in (v, more, idles, agrees)
