-- ===== src/Grpc/Metadata.antt =====
-- `GrpcServerTraceContextReader` and `GrpcClientTraceContextWriter`: the trace context in gRPC's
-- metadata. Metadata are a list of keys and values; a null context is `none`.
use pinpoint_cpp_examples.Common.{
  ◌≡◌, refl, sym, ap, ◌∙◌, append-nil, append_assoc, Option, none, some, List, [], ◌∷◌, ◌++◌, Text,
  false, Bool, lower, lower_idem, text_eq, if◌then◌else◌, Bool-cases, inl, inr,
}

unfoldable pub to_lower : Text → Text
to_lower [] = []
to_lower (c ∷ s) = lower c ∷ to_lower s

abbrev pub Metadata : Type 0
Metadata = List (Text × Text)

-- The loop over the metadata.
find_entry : Text → Metadata → Option Text
find_entry lower_key [] = none
find_entry lower_key ((entry_key, value) ∷ rest) =
    if text_eq (to_lower entry_key) lower_key then some value else find_entry lower_key rest

unfoldable pub get : Option Metadata → Text → Option Text
unfolding find_entry
get none key = none
get (some metadata) key = find_entry (to_lower key) metadata

-- `AddMetadata` keeps what is there.
unfoldable pub set : Text → Text → Option Metadata → Option Metadata
set key value none = none
set key value (some metadata) = some (metadata ++ (to_lower key, value) ∷ [])

-- What the agent does with a writer: `Set` for each pair of the trace context.
unfoldable pub set_all : List (Text × Text) → Option Metadata → Option Metadata
unfolding set
set_all [] context = context
set_all ((key, value) ∷ rest) context = set_all rest (set key value context)

-- The values of a key, in any case, in the order of the metadata.
abbrev pub values : Text → Metadata → List Text
values k [] = []
values k ((key, value) ∷ rest) =
    if text_eq (to_lower key) k then value ∷ values k rest else values k rest

-- gRPC delivers the entries of a key as they were sent, in their order, unless the key is one of its
-- `own`, such as `user-agent`, under which it adds what it likes; between keys it may reorder.
abbrev pub Delivers : (Text → Bool) → (Metadata → Metadata) → Type 0
Delivers own deliver = (k : Text) (m : Metadata) → own k ≡ false → values k (deliver m) ≡ values k m

abbrev pub first_of : List Text → Option Text
first_of [] = none
first_of (v ∷ vs) = some v

to_lower_idem : (s : Text) → to_lower (to_lower s) ≡ to_lower s
unfolding to_lower
to_lower_idem [] = refl
to_lower_idem (c ∷ s) = rw (lower_idem c, to_lower_idem s) refl

find_entry-first_of : (k : Text) (m : Metadata) → find_entry k m ≡ first_of (values k m)
unfolding find_entry
find_entry-first_of k [] = refl
find_entry-first_of k ((key, value) ∷ rest) = elim (Bool-cases (text_eq (to_lower key) k)) [
  | inl e ↦ rw e refl
  | inr e ↦ rw e (find_entry-first_of k rest)
]

pub values-append : (k : Text) (m n : Metadata) → values k (m ++ n) ≡ values k m ++ values k n
values-append k [] n = refl
values-append k ((x, v) ∷ rest) n = elim (Bool-cases (text_eq (to_lower x) k)) [
  | inl e ↦ rw e (ap (λ vs. v ∷ vs) (values-append k rest n))
  | inr e ↦ rw e (values-append k rest n)
]

-- `Set` keeps the key in lower case, which the reader's comparison does not see.
values-written :
    (k key value : Text) (rest : Metadata)
    → values k ((to_lower key, value) ∷ []) ++ values k rest ≡ values k ((key, value) ∷ rest)
values-written k key value rest = elim (Bool-cases (text_eq (to_lower key) k)) [
  | inl e ↦ rw (to_lower_idem key, e) refl
  | inr e ↦ rw (to_lower_idem key, e) refl
]

set_all-none : (written : Metadata) → set_all written none ≡ none
unfolding set_all
set_all-none [] = refl
set_all-none ((key, value) ∷ rest) = set_all-none rest

-- What the server's context holds when the client's held this.
abbrev pub received : (Metadata → Metadata) → Option Metadata → Option Metadata
received deliver none = none
received deliver (some m) = some (deliver m)

set_all_lem :
    (k : Text) (written m : Metadata)
    → (sent : Metadata) × (set_all written (some m) ≡ some sent)
      × (values k sent ≡ values k m ++ values k written)
unfolding set_all set
set_all_lem k [] m = (m, refl, sym (append-nil (values k m)))
set_all_lem k ((key, value) ∷ rest) m =
    let (sent, is_sent, holds) = set_all_lem k rest (m ++ (to_lower key, value) ∷ []) in
    (
      sent,
      is_sent,
      holds
          ∙ ap (λ vs. vs ++ values k rest) (values-append k m ((to_lower key, value) ∷ []))
          ∙ append_assoc (values k m) (values k ((to_lower key, value) ∷ [])) (values k rest)
          ∙ ap (λ vs. values k m ++ vs) (values-written k key value rest),
    )

-- Whatever the client's agent writes into new metadata, the server's agent reads back: under every key, in
-- any case, that gRPC does not use itself, the first value that was written under it in any case, and
-- nothing where none was written, whatever gRPC adds under its own keys and however it orders the entries
-- of different keys. Without a context nothing is written or read.
pub get-set_all :
    (own : Text → Bool) (deliver : Metadata → Metadata)
    → Delivers own deliver
    → (written : Metadata) (asked : Text) → own (to_lower asked) ≡ false
    → (get (received deliver (set_all written (some []))) asked
        ≡ first_of (values (to_lower asked) written))
      × (get (received deliver (set_all written none)) asked ≡ none)
unfolding get set_all
get-set_all own deliver law written asked free =
    let (sent, is_sent, holds) = set_all_lem (to_lower asked) written [] in
    (
      rw is_sent (
          find_entry-first_of (to_lower asked) (deliver sent)
          ∙ ap first_of (law (to_lower asked) sent free ∙ holds)),
      rw (set_all-none written) refl,
    )
