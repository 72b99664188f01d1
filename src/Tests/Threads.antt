-- ===== src/Tests/Threads.antt =====
-- Two threads with requests to the MySQL example.
use pinpoint_cpp_examples.Common.{refl, some, [], ◌∷◌}
use pinpoint_cpp_examples.Mysql.Threads.{
  Shared, Run, stays, goes, connect, begin, at_start, set, between, querying, connects,
  begins_query, Dangles, run-overlapping,
}

abbrev connected : Shared
connected = record { session = some 0; made = 1; threads = set 3 between at_start.threads }

abbrev in_query : Shared
in_query = record connected { threads = set 3 (querying 0) connected.threads }

first_query : Run at_start ((3, begin) ∷ (3, connect) ∷ []) in_query
first_query = goes 3 begin (goes 3 connect stays (connects refl)) (begins_query 0 refl refl)

run-overlapping_example :
    (v : Shared) × Run at_start ((5, connect) ∷ (3, begin) ∷ (3, connect) ∷ []) v × Dangles 3 v
run-overlapping_example =
    run-overlapping ((3, begin) ∷ (3, connect) ∷ []) in_query 3 5 0 first_query refl refl
