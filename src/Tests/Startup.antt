-- ===== src/Tests/Startup.antt =====
-- The start of the examples.
use pinpoint_cpp_examples.Common.{◌≡◌, refl, [], ◌∷◌, lit, text_eq}
use pinpoint_cpp_examples.Common.Environ.{Environ, getenv}
use pinpoint_cpp_examples.Startup.{setting}

abbrev renamed : Environ
renamed =
    (lit "PINPOINT_CPP_APPLICATION_NAME", lit "mine") ∷ (lit "KAFKA_BROKERS", lit "kafka:9092") ∷ []

brokers_set : setting (lit "KAFKA_BROKERS") (lit "localhost:9092") renamed ≡ lit "kafka:9092"
unfolding setting getenv text_eq lit
brokers_set = refl
