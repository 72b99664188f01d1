-- ===== src/Mysql/Demo.antt =====
-- `runDemoHandler`: a script of queries, and the JSON document that reports it.
use pinpoint_cpp_examples.Common.{
  ℕ, Bool, true, false, Option, none, some, List, [], ◌∷◌, ◌++◌, Text, lit, flatten, is_empty,
  if◌then◌else◌,
}
use pinpoint_cpp_examples.Common.Decimal.{to_string}
use pinpoint_cpp_examples.Trace.{default_type}
use pinpoint_cpp_examples.Trace.Program.{
  Program, Exception, what, value, ask, scoped, try_catch, pure, get_span_context, ◌>>=◌, ◌>>◌,
}
use pinpoint_cpp_examples.Mysql.Session.{DatabaseConfig, Mysqlx, Database}
use pinpoint_cpp_examples.Mysql.Queries.{
  QueryType, insert, update, delete, execute_select_query, execute_dml_query,
}

-- The local `result` and `first`.
pub record Document : Type 0 where
  pub result : Text
  pub first : Bool

-- `addOperation`.
unfoldable pub add_operation : Text → Text → Text → Document → Document
add_operation op status details doc = record {
  result = flatten (
      doc.result
      ∷ (if doc.first then [] else lit ",\n")
      ∷ lit "    {\n"
      ∷ lit "      \"operation\": \""
      ∷ op
      ∷ lit "\",\n"
      ∷ lit "      \"status\": \""
      ∷ status
      ∷ lit "\""
      ∷ (if is_empty details
          then []
          else flatten (lit ",\n      \"details\": \"" ∷ details ∷ lit "\"" ∷ []))
      ∷ lit "\n    }"
      ∷ []);
  first = false;
}

-- One query of the script, and the queries behind one `addOperation`.
pub data Query : Type 0 where
  select_query : Text → List Text → Query
  dml : QueryType → Text → List Text → Query

pub record Step : Type 0 where
  pub queries : List Query
  pub operation : Text
  pub status : Text
  pub details : Text

abbrev insert_user : Text → Text → Text → Query
insert_user name email age =
    dml insert (lit "INSERT INTO demo_users (name, email, age) VALUES (?, ?, ?)")
      (name ∷ email ∷ age ∷ [])

abbrev create_table_step : Step
create_table_step = record {
  queries =
      dml update
        (flatten (
          lit "\n"
          ∷ lit "            CREATE TABLE IF NOT EXISTS demo_users (\n"
          ∷ lit "                id INT AUTO_INCREMENT PRIMARY KEY,\n"
          ∷ lit "                name VARCHAR(100) NOT NULL,\n"
          ∷ lit "                email VARCHAR(100) UNIQUE,\n"
          ∷ lit "                age INT,\n"
          ∷ lit "                created_at TIMESTAMP DEFAULT CURRENT_TIMESTAMP\n"
          ∷ lit "            )\n"
          ∷ lit "        "
          ∷ []))
        ([])
      ∷ [];
  operation = lit "create_table";
  status = lit "success";
  details = lit "demo_users table created/verified";
}

abbrev clear_data_step : Step
clear_data_step = record {
  queries = dml delete (lit "DELETE FROM demo_users") ([]) ∷ [];
  operation = lit "clear_data";
  status = lit "success";
  details = lit "Existing data cleared";
}

abbrev insert_data_step : Step
insert_data_step = record {
  queries =
      insert_user (lit "John Doe") (lit "john@example.com") (lit "25")
      ∷ insert_user (lit "Jane Smith") (lit "jane@example.com") (lit "30")
      ∷ insert_user (lit "Bob Johnson") (lit "bob@example.com") (lit "35")
      ∷ [];
  operation = lit "insert_data";
  status = lit "success";
  details = lit "3 users inserted";
}

abbrev select_queries_step : Step
select_queries_step = record {
  queries =
      select_query (lit "SELECT * FROM demo_users") ([])
      ∷ select_query (lit "SELECT * FROM demo_users WHERE age > ?") (lit "25" ∷ [])
      ∷ select_query (lit "SELECT name, email FROM demo_users WHERE name LIKE ?")
          (lit "%John%" ∷ [])
      ∷ [];
  operation = lit "select_queries";
  status = lit "success";
  details = lit "Multiple SELECT queries executed";
}

abbrev update_queries_step : Step
update_queries_step = record {
  queries =
      dml update (lit "UPDATE demo_users SET age = ? WHERE name = ?")
        (lit "26" ∷ lit "John Doe" ∷ [])
      ∷ select_query (lit "SELECT * FROM demo_users WHERE name = ?") (lit "John Doe" ∷ [])
      ∷ [];
  operation = lit "update_queries";
  status = lit "success";
  details = lit "UPDATE and verification completed";
}

abbrev complex_queries_step : Step
complex_queries_step = record {
  queries =
      select_query
        (flatten (
          lit "\n"
          ∷ lit "            SELECT \n"
          ∷ lit "                name, \n"
          ∷ lit "                email, \n"
          ∷ lit "                age,\n"
          ∷ lit "                CASE \n"
          ∷ lit "                    WHEN age < 30 THEN 'Young'\n"
          ∷ lit "                    WHEN age < 40 THEN 'Middle'\n"
          ∷ lit "                    ELSE 'Senior'\n"
          ∷ lit "                END as age_group\n"
          ∷ lit "            FROM demo_users \n"
          ∷ lit "            ORDER BY age DESC\n"
          ∷ lit "        "
          ∷ []))
        ([])
      ∷ select_query (lit "SELECT COUNT(*) as total_users, AVG(age) as avg_age FROM demo_users")
          ([])
      ∷ [];
  operation = lit "complex_queries";
  status = lit "success";
  details = lit "Complex SELECT with CASE and aggregation";
}

abbrev error_handling_step : Step
error_handling_step = record {
  queries = select_query (lit "SELECT * FROM non_existent_table") ([]) ∷ [];
  operation = lit "error_handling";
  status = lit "tested";
  details = lit "Error handling with non-existent table";
}

abbrev delete_data_step : Step
delete_data_step = record {
  queries =
      dml delete (lit "DELETE FROM demo_users WHERE age > ?") (lit "30" ∷ [])
      ∷ select_query (lit "SELECT COUNT(*) as remaining_users FROM demo_users") ([])
      ∷ [];
  operation = lit "delete_data";
  status = lit "success";
  details = lit "Conditional DELETE executed";
}

unfoldable pub script : List Step
script =
    create_table_step ∷ clear_data_step ∷ insert_data_step ∷ select_queries_step
    ∷ update_queries_step ∷ complex_queries_step ∷ error_handling_step ∷ delete_data_step ∷ []

abbrev pub opening_text : Text
opening_text = flatten (
    lit "{\n"
    ∷ lit "  \"status\": \"running\",\n"
    ∷ lit "  \"message\": \"Database Demo Starting\",\n"
    ∷ lit "  \"operations\": [\n"
    ∷ [])

-- The document when the clock shows `seconds` in the end.
unfoldable pub finish : Document → ℕ → Text
finish doc seconds = flatten (
    doc.result
    ∷ lit "\n  ],\n"
    ∷ lit "  \"demo_status\": \"completed\",\n"
    ∷ lit "  \"timestamp\": \""
    ∷ to_string seconds
    ∷ lit "\"\n"
    ∷ lit "}"
    ∷ [])

module _ (driver : Mysqlx) (config : DatabaseConfig) where
  open driver use {Env, now}

  unfoldable pub run_query : Query → Program (Database Env) (Unit {0})
  run_query (select_query sql params) = execute_select_query driver config sql params
  run_query (dml type sql params) = execute_dml_query driver config type sql params

  unfoldable pub run_queries : List Query → Program (Database Env) (Unit {0})
  unfolding run_query
  run_queries [] = pure tt
  run_queries (q ∷ qs) = do run_query q; run_queries qs

  unfoldable pub attempt : Step → Program (Database Env) (Option Exception)
  unfolding run_queries
  attempt step = try_catch (run_queries step.queries >> pure none) (λ x. pure (some x))

  -- The other steps, or the `catch`.
  unfoldable pub after_step :
      Program (Database Env) Document
      → Document
      → Option Exception
      → Program (Database Env) Document
  after_step rest doc none = rest
  after_step rest doc (some x) =
      pure (add_operation (lit "demo_execution") (lit "failed") (lit "Error: " ++ what x) doc)

  -- The body of the `try`, from the step that is next: an exception ends it and is reported.
  unfoldable pub run_steps : List Step → Document → Program (Database Env) Document
  unfolding attempt after_step
  run_steps [] doc = pure doc
  run_steps (step ∷ steps) doc = do
    caught ← attempt step
    after_step (run_steps steps (add_operation step.operation step.status step.details doc)) doc
        caught

  unfoldable pub clock : Program (Database Env) ℕ
  clock = ask λ db. let (seconds, env) = now db.env in (value seconds, record db { env = env })

  unfoldable pub run_demo_handler : Program (Database Env) Text
  unfolding run_steps clock
  run_demo_handler = do
    span ← get_span_context
    scoped span (lit "runDemoHandler") default_type λ e. do
      doc ← run_steps script (record { result = opening_text; first = true })
      seconds ← clock
      pure (finish doc seconds)
