-- ===== src/Kafka/Headers.antt =====
-- `KafkaTraceContextReader` and `KafkaTraceContextWriter`. librdkafka's `Headers` are an interface here.
use pinpoint_cpp_examples.Common.{
  ◌≡◌, refl, ap, ◌∙◌, Option, none, some, List, [], ◌∷◌, Text, text_eq, if◌then◌else◌,
}

-- `Headers::create`, `add`, and `get_last`, where `none` is an error.
pub record RdHeaders : Type 1 where
  pub Headers : Type 0
  pub create : Headers
  pub add : Text → Text → Headers → Headers
  pub get_last : Text → Headers → Option Text

-- As librdkafka documents them: a new object holds nothing, and the last header of a key is the one
-- that was added last.
pub record KeepsLast (api_of : RdHeaders) : Type 0 where
  pub created : (key : Text) → api_of.get_last key api_of.create ≡ none
  pub added :
      (asked key value : Text) (h : api_of.Headers)
      → api_of.get_last asked (api_of.add key value h)
        ≡ (if text_eq key asked then some value else api_of.get_last asked h)

module _ (api_of : RdHeaders) where
  open api_of use {Headers, add, get_last}

  -- A null pointer is `none`.
  unfoldable pub get : Option Headers → Text → Option Text
  get none key = none
  get (some headers) key = get_last key headers

  unfoldable pub set : Text → Text → Option Headers → Option Headers
  set key value none = none
  set key value (some headers) = some (add key value headers)

  -- What the agent does with a writer: `Set` for each header of the trace context.
  unfoldable pub set_all : List (Text × Text) → Option Headers → Option Headers
  unfolding set
  set_all [] headers = headers
  set_all ((key, value) ∷ rest) headers = set_all rest (set key value headers)

-- The last value under a key, or `before` if there is none.
abbrev pub last_value : Text → List (Text × Text) → Option Text → Option Text
last_value asked [] before = before
last_value asked ((key, value) ∷ rest) before =
    last_value asked rest (if text_eq key asked then some value else before)

set_all-last :
    (api_of : RdHeaders)
    → KeepsLast api_of
    → (asked : Text) (written : List (Text × Text)) (h : api_of.Headers)
    → get api_of (set_all api_of written (some h)) asked
      ≡ last_value asked written (api_of.get_last asked h)
unfolding get set_all
set_all-last api_of law asked [] h = refl
set_all-last api_of law asked ((key, value) ∷ rest) h =
    set_all-last api_of law asked rest (api_of.add key value h)
    ∙ ap (last_value asked rest) (law.added asked key value h)

-- What the producer's agent writes into new headers, the consumer's agent reads back: for every key the
-- value that was written last under it, and nothing for a key that was not written. librdkafka keeps
-- headers as it documents.
pub get-set_all :
    (api_of : RdHeaders)
    → KeepsLast api_of
    → (asked : Text) (written : List (Text × Text))
    → get api_of (set_all api_of written (some api_of.create)) asked ≡ last_value asked written none
get-set_all api_of law asked written =
    set_all-last api_of law asked written api_of.create
    ∙ ap (last_value asked written) (law.created asked)
