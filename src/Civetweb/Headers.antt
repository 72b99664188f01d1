-- ===== src/Civetweb/Headers.antt =====
-- The header carriers: one on CivetWeb's request, one on a static array of keys and values. A callback
-- says whether to stop; its captured variables are the state.
use pinpoint_cpp_examples.Common.{
  ℕ, zero, suc, ◌+◌, ◌*◌, ◌≡◌, refl, ap, ◌∙◌, Bool, true, false, Option, none, some, List, [], ◌∷◌,
  ◌++◌, arith, Text, text_eq, if◌then◌else◌, length, get_elem?, length-append,
}

-- `const struct mg_header*` and its count.
abbrev pub Headers : Type 0
Headers = List (Text × Text)

-- Keys and values in turn, and the number of pairs.
pub record StaticHeaderArray : Type 0 where
  pub pairs : List Text
  pub count : ℕ

pair_of : Option Text → Option Text → Option (Text × Text)
pair_of none value = none
pair_of (some key) none = none
pair_of (some key) (some value) = some (key, value)

-- What the array has at `i`, if both entries are in it.
entry : List Text → ℕ → Option (Text × Text)
unfolding pair_of
entry pairs i = pair_of (get_elem? pairs (i * 2)) (get_elem? pairs (i * 2 + 1))

-- One round, and what the later ones give.
get_round : Text → Option (Text × Text) → Option (Option Text) → Option (Option Text)
get_round key none later = none
get_round key (some (k, value)) later = if text_eq k key then some (some value) else later

-- The rounds that are left, and `i`; `none` is a read outside of the array.
get_loop : List Text → Text → ℕ → ℕ → Option (Option Text)
unfolding entry get_round
get_loop pairs key zero i = some none
get_loop pairs key (suc rounds) i =
    get_round key (entry pairs i) (get_loop pairs key rounds (suc i))

unfoldable pub static_header_get : StaticHeaderArray → Text → Option (Option Text)
unfolding get_loop
static_header_get arr key = get_loop arr.pairs key arr.count 0

module _ {S : Type 0} (callback : Text → Text → S → Bool × S) where
  -- The loop over the request's headers.
  visit_all : Headers → S → S
  visit_all [] s = s
  visit_all ((name, value) ∷ headers) s =
      let (stops, t) = callback name value s in
      let later = visit_all headers t in if stops then t else later

  -- `none` is a connection without a request.
  unfoldable pub civetweb_header_for_each : Option Headers → S → S
  unfolding visit_all
  civetweb_header_for_each none s = s
  civetweb_header_for_each (some headers) s = visit_all headers s

  visit_round : Option (Text × Text) → S → (S → Option S) → Option S
  visit_round none s later = none
  visit_round (some (k, value)) s later =
      let (stops, t) = callback k value s in let after = later t in if stops then some t else after

  for_each_loop : List Text → ℕ → ℕ → S → Option S
  unfolding entry visit_round
  for_each_loop pairs zero i s = some s
  for_each_loop pairs (suc rounds) i s =
      visit_round (entry pairs i) s (for_each_loop pairs rounds (suc i))

  unfoldable pub static_header_for_each : StaticHeaderArray → S → Option S
  unfolding for_each_loop
  static_header_for_each arr s = for_each_loop arr.pairs arr.count 0 s

-- An array that holds these pairs, with whatever follows them.
abbrev pub flat : Headers → List Text
flat [] = []
flat ((k, v) ∷ ps) = k ∷ v ∷ flat ps

abbrev pub array_of : Headers → List Text → StaticHeaderArray
array_of ps behind = record { pairs = flat ps ++ behind; count = length ps }

-- The value of the first pair with this key.
abbrev pub first_value : Text → Headers → Option Text
first_value key [] = none
first_value key ((k, v) ∷ ps) = if text_eq k key then some v else first_value key ps

length-flat : (ps : Headers) → length (flat ps) ≡ length ps * 2
length-flat [] = refl
length-flat ((k, v) ∷ ps) = omega (arith, length-flat ps)

get_elem?-past : (xs ys : List Text) (i : ℕ) → get_elem? (xs ++ ys) (length xs + i) ≡ get_elem? ys i
get_elem?-past [] ys i = ap (get_elem? ys) (omega arith)
get_elem?-past (x ∷ xs) ys i =
    let e : suc (length xs) + i ≡ suc (length xs + i) = omega arith in
    ap (get_elem? (x ∷ (xs ++ ys))) e ∙ get_elem?-past xs ys i

module _ (seen : Headers) (k v : Text) (ys : List Text) where
  at_key : get_elem? (flat seen ++ k ∷ v ∷ ys) (length seen * 2) ≡ some k
  at_key =
      ap (get_elem? (flat seen ++ k ∷ v ∷ ys)) (omega (arith, length-flat seen))
      ∙ get_elem?-past (flat seen) (k ∷ v ∷ ys) 0

  at_value : get_elem? (flat seen ++ k ∷ v ∷ ys) (length seen * 2 + 1) ≡ some v
  at_value =
      ap (get_elem? (flat seen ++ k ∷ v ∷ ys)) (omega (arith, length-flat seen))
      ∙ get_elem?-past (flat seen) (k ∷ v ∷ ys) 1

  entry_here : entry (flat seen ++ k ∷ v ∷ ys) (length seen) ≡ some (k, v)
  unfolding entry
  entry_here =
      ap (λ o. pair_of o (get_elem? (flat seen ++ k ∷ v ∷ ys) (length seen * 2 + 1))) at_key
      ∙ ap (pair_of (some k)) at_value

-- One pair further.
flat-snoc :
    (seen : Headers) (k v : Text) (ys : List Text)
    → flat (seen ++ (k, v) ∷ []) ++ ys ≡ flat seen ++ k ∷ v ∷ ys
flat-snoc [] k v ys = refl
flat-snoc ((a, b) ∷ seen) k v ys = ap (λ xs. a ∷ b ∷ xs) (flat-snoc seen k v ys)

length-snoc : (seen : Headers) (p : Text × Text) → length (seen ++ p ∷ []) ≡ suc (length seen)
length-snoc seen p = omega (arith, length-append seen (p ∷ []))

module _ (seen : Headers) (k v : Text) (ps : Headers) (behind : List Text) where
  abbrev here : List Text
  here = flat seen ++ (flat ((k, v) ∷ ps) ++ behind)

  -- What is shown of the pairs behind is shown of them in this array.
  further :
      (P : List Text → ℕ → Type 0)
      → P (flat (seen ++ (k, v) ∷ []) ++ (flat ps ++ behind)) (length (seen ++ (k, v) ∷ []))
      → P here (suc (length seen))
  further P h = rw (flat-snoc seen k v (flat ps ++ behind), length-snoc seen (k, v)) at h

get_loop_lem :
    (key : Text) (seen ps : Headers) (behind : List Text)
    → get_loop (flat seen ++ (flat ps ++ behind)) key (length ps) (length seen)
      ≡ some (first_value key ps)
unfolding get_loop get_round
get_loop_lem key seen [] behind = refl
get_loop_lem key seen ((k, v) ∷ ps) behind =
    let later =
      further seen k v ps behind
        (λ pairs i. get_loop pairs key (length ps) i ≡ some (first_value key ps))
        (get_loop_lem key (seen ++ (k, v) ∷ []) ps behind) in
    let rest = get_loop (here seen k v ps behind) key (length ps) (suc (length seen)) in
    ap (λ e. get_round key e rest) (entry_here seen k v (flat ps ++ behind))
    ∙ decided (text_eq k key) later
  where
    decided :
        (b : Bool) {x : Option (Option Text)}
        → x ≡ some (first_value key ps)
        → (if b then some (some v) else x) ≡ some (if b then some v else first_value key ps)
    decided true h = refl
    decided false h = h

module _ {S : Type 0} (callback : Text → Text → S → Bool × S) where
  for_each_lem :
      (seen ps : Headers) (behind : List Text) (s : S)
      → for_each_loop callback (flat seen ++ (flat ps ++ behind)) (length ps) (length seen) s
        ≡ some (visit_all callback ps s)
  unfolding for_each_loop visit_round visit_all
  for_each_lem seen [] behind s = refl
  for_each_lem seen ((k, v) ∷ ps) behind s =
      let t = (callback k v s).1 in
      let later =
        further seen k v ps behind
          (λ pairs i. for_each_loop callback pairs (length ps) i t ≡ some (visit_all callback ps t))
          (for_each_lem (seen ++ (k, v) ∷ []) ps behind t) in
      let rest = for_each_loop callback (here seen k v ps behind) (length ps) (suc (length seen)) in
      ap (λ e. visit_round callback e s rest) (entry_here seen k v (flat ps ++ behind))
      ∙ decided (callback k v s).0 t later
    where
      decided :
          (b : Bool) {x : Option S} (t : S) {u : S}
          → x ≡ some u
          → (if b then some t else x) ≡ some (if b then t else u)
      decided true t h = refl
      decided false t h = h

-- A reader on a static array that holds the pairs `ps`, with that number as its count, never reads outside
-- of the array, whatever follows the pairs: its `get` finds the value of the first pair with the key, or
-- nothing, and its `for_each` does to every callback just what the request's carrier does with these
-- headers, down to where it stops.
pub static_array-Reads :
    {S : Type 0} (callback : Text → Text → S → Bool × S) (key : Text) (ps : Headers)
    (behind : List Text) (s : S)
    → (static_header_get (array_of ps behind) key ≡ some (first_value key ps))
      × (static_header_for_each callback (array_of ps behind) s
          ≡ some (civetweb_header_for_each callback (some ps) s))
unfolding static_header_get static_header_for_each civetweb_header_for_each
static_array-Reads callback key ps behind s =
    (get_loop_lem key [] ps behind, for_each_lem callback [] ps behind s)
