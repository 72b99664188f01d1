-- ===== src/Cpptrace/Headers.antt =====
-- `HttpHeaderReader` and `HttpHeaderReaderWriter`, which every HTTP example uses. cpp-httplib's `Headers`, a
-- multimap whose keys do not depend on case, are an interface here.
use pinpoint_cpp_examples.Common.{
  ℕ, suc, ◌≤◌, ◌≡◌, refl, ◌∙◌, Bool, true, false, Bool-cases, inl, inr, Option, none, some, List,
  [], ◌∷◌, Text, arith, if◌then◌else◌,
}

-- `emplace`, `find`, and the pairs in the order of the iterators. `same` says whether two keys are equal.
pub record Multimap : Type 1 where
  pub Headers : Type 0
  pub empty : Headers
  pub emplace : Text → Text → Headers → Headers
  pub find : Text → Headers → Option Text
  pub pairs : Headers → List (Text × Text)
  pub same : Text → Text → Bool

-- A multimap as the standard has it: an empty one finds nothing, a new pair is found where its key was
-- missing, and changes nothing for other keys.
pub record KeepsPairs (map : Multimap) : Type 0 where
  pub empty_find : (key : Text) → map.find key map.empty ≡ none
  pub emplaced :
      (asked key value : Text) (h : map.Headers)
      → map.same asked key ≡ true
      → map.find asked h ≡ none
      → map.find asked (map.emplace key value h) ≡ some value
  pub kept :
      (asked key value : Text) (h : map.Headers)
      → map.same asked key ≡ false
      → map.find asked (map.emplace key value h) ≡ map.find asked h

module _ (map : Multimap) where
  open map use {Headers, emplace, find, pairs, same}

  unfoldable pub get : Headers → Text → Option Text
  get headers key = find key headers

  unfoldable pub set : Text → Text → Headers → Headers
  set key value headers = emplace key value headers

  -- What the agent does with a writer: `Set` for each pair.
  unfoldable pub set_all : List (Text × Text) → Headers → Headers
  unfolding set
  set_all [] headers = headers
  set_all ((key, value) ∷ rest) headers = set_all rest (set key value headers)

  -- The callback says whether to go on; its captured variables are the state.
  visit_pairs : {S : Type 0} → (Text → Text → S → Bool × S) → List (Text × Text) → S → S
  visit_pairs callback [] s = s
  visit_pairs callback ((name, value) ∷ rest) s =
      let (goes_on, t) = callback name value s in
      let later = visit_pairs callback rest t in if goes_on then later else t

  unfoldable pub for_each : {S : Type 0} → (Text → Text → S → Bool × S) → Headers → S → S
  unfolding visit_pairs
  for_each callback headers s = visit_pairs callback (pairs headers) s

  -- How many of these pairs have this key, and the value of the first one.
  abbrev pub hits : Text → List (Text × Text) → ℕ
  hits asked [] = 0
  hits asked ((key, value) ∷ rest) =
      if same asked key then suc (hits asked rest) else hits asked rest

  abbrev pub first_hit : Text → List (Text × Text) → Option Text
  first_hit asked [] = none
  first_hit asked ((key, value) ∷ rest) =
      if same asked key then some value else first_hit asked rest

  set_all-untouched :
      KeepsPairs map
      → (asked : Text) (written : List (Text × Text)) (h : Headers) → hits asked written ≡ 0
      → find asked (set_all written h) ≡ find asked h
  unfolding set_all
  set_all-untouched law asked [] h e = refl
  set_all-untouched law asked ((key, value) ∷ rest) h e = elim (Bool-cases (same asked key)) [
    | inl b ↦ absurd (ground arith)
    | inr b ↦
        set_all-untouched law asked rest (emplace key value h) (rw b at e)
        ∙ law.kept asked key value h b
  ]

  -- A header that the agent writes once into headers that do not have its key is read back with its value,
  -- and a key that is neither there nor written is not found. The multimap keeps pairs as the standard says.
  pub get-set_pairs :
      KeepsPairs map
      → (asked : Text) (written : List (Text × Text)) (h : Headers) → get h asked ≡ none
      → hits asked written ≤ 1
      → get (set_all written h) asked ≡ first_hit asked written
  unfolding get set_all
  get-set_pairs law asked [] h e once = e
  get-set_pairs law asked ((key, value) ∷ rest) h e once = elim (Bool-cases (same asked key)) [
    | inl b ↦
        let fresh : hits asked rest ≡ 0 = ground arith in
        rw b (
          set_all-untouched law asked rest (emplace key value h) fresh
          ∙ law.emplaced asked key value h b e)
    | inr b ↦ rw b (
        get-set_pairs law asked rest (emplace key value h) (law.kept asked key value h b ∙ e)
          (rw b at once))
  ]
