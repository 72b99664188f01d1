-- ===== src/Tests/RedisSettings.antt =====
-- The settings of the Redis example.
use pinpoint_cpp_examples.Common.{◌≡◌, refl, some, [], ◌∷◌, ◌++◌, lit, text_eq, arith}
use pinpoint_cpp_examples.Common.Decimal.{to_string}
use pinpoint_cpp_examples.Common.Int.{pos}
use pinpoint_cpp_examples.Common.Environ.{Environ, getenv}
use pinpoint_cpp_examples.Redis.Settings.{redis_config, redis_config-named}

abbrev remote : Environ
remote = (lit "REDIS_HOST", lit "cache") ∷ (lit "REDIS_PORT", to_string 6380) ∷ []

redis_config-named_example :
    redis_config remote
    ≡ some (record {
      host = lit "cache";
      port = pos 6380;
      endpoint = lit "cache" ++ (b':' ∷ to_string 6380);
    })
unfolding getenv text_eq lit
redis_config-named_example = redis_config-named remote (lit "cache") 6380 refl refl (omega arith)
