-- ===== src/Curl/Lookup.antt =====
-- What the reader finds among the headers that the agent has written.
use pinpoint_cpp_examples.Common.{
  ◌≡◌, refl, sym, ap, ◌∙◌, Bool, true, false, Option, none, some, List, [], ◌∷◌, ◌++◌, Text, Lacks,
  ◌≢◌, All-append, c_string-Lacks, arith, All, if◌then◌else◌,
}
use pinpoint_cpp_examples.Curl.Headers.{
  set, get, trim_value, same_name, split_line, line_value, or_else, split_line-written,
}
use pinpoint_cpp_examples.Curl.Request.{Written, written_headers}

-- Curl has memory for the header, its name has no colon, its value no space in front, and neither a NUL.
abbrev pub IsPlain : Written → Type 0
IsPlain h =
    (h.has_memory ≡ true)
    × Lacks b':' h.key
    × (trim_value h.value ≡ h.value)
    × Lacks 0 h.key
    × Lacks 0 h.value

line-Lacks : (key value : Text) → Lacks 0 key → Lacks 0 value → Lacks 0 (key ++ b':' ∷ b' ' ∷ value)
line-Lacks key value h k =
    All-append (λ c. c ≢ 0) key (b':' ∷ b' ' ∷ value) h
      ((λ e. omega (arith, e)), ((λ e. omega (arith, e)), k))

-- The value of the first header of that name, in any case.
abbrev pub first_named : Text → List Written → Option Text
first_named asked [] = none
first_named asked (h ∷ hs) = if same_name h.key asked then some h.value else first_named asked hs

or_else_assoc : (o r s : Option Text) → or_else (or_else o r) s ≡ or_else o (or_else r s)
unfolding or_else
or_else_assoc none r s = refl
or_else_assoc (some v) r s = refl

or_else_if :
    (b : Bool) (v : Text) (r : Option Text)
    → or_else (or_else (if b then some v else none) none) r ≡ (if b then some v else r)
unfolding or_else
or_else_if true v r = refl
or_else_if false v r = refl

get-append :
    (asked : Text) (xs ys : List Text)
    → get asked (xs ++ ys) ≡ or_else (get asked xs) (get asked ys)
unfolding get or_else
get-append asked [] ys = refl
get-append asked (x ∷ xs) ys =
    ap (or_else (line_value asked (split_line x))) (get-append asked xs ys)
    ∙ sym (or_else_assoc (line_value asked (split_line x)) (get asked xs) (get asked ys))

get-line :
    (asked key value : Text)
    → Lacks b':' key
    → trim_value value ≡ value
    → get asked ((key ++ b':' ∷ b' ' ∷ value) ∷ [])
      ≡ or_else (if same_name key asked then some value else none) none
unfolding get line_value trim_value
get-line asked key value no_colon trimmed =
    ap (λ o. or_else (line_value asked o) none)
      (split_line-written key (b' ' ∷ value) no_colon ∙ ap (λ v. some (key, v)) trimmed)

or_else-none : (o : Option Text) → or_else o none ≡ o
unfolding or_else
or_else-none none = refl
or_else-none (some v) = refl

get-set :
    (asked : Text) (x : Written) (lines : List Text)
    → IsPlain x
    → get asked (set x.has_memory x.key x.value lines)
      ≡ or_else
          (get asked lines)
          (or_else (if same_name x.key asked then some x.value else none) none)
unfolding set
get-set asked x lines (memory, no_colon, trimmed, key_free, value_free) =
    rw (memory, c_string-Lacks _ (line-Lacks x.key x.value key_free value_free))
      (get-append asked lines ((x.key ++ b':' ∷ b' ' ∷ x.value) ∷ [])
        ∙ ap (or_else (get asked lines)) (get-line asked x.key x.value no_colon trimmed))

lookup_lem :
    (asked : Text) (hs : List Written) (lines : List Text)
    → All IsPlain hs
    → get asked (written_headers hs lines) ≡ or_else (get asked lines) (first_named asked hs)
unfolding written_headers
lookup_lem asked [] lines h = sym (or_else-none (get asked lines))
lookup_lem asked (x ∷ hs) lines h =
    lookup_lem asked hs (set x.has_memory x.key x.value lines) h.1
    ∙ ap (λ o. or_else o (first_named asked hs)) (get-set asked x lines h.0)
    ∙ or_else_assoc (get asked lines) _ (first_named asked hs)
    ∙ ap (or_else (get asked lines))
        (or_else_if (same_name x.key asked) x.value (first_named asked hs))

-- The reader finds among the headers that the agent has written the first one of a name.
pub get-written_headers :
    (asked : Text) (hs : List Written)
    → All IsPlain hs
    → get asked (written_headers hs []) ≡ first_named asked hs
unfolding or_else get
get-written_headers asked hs h = lookup_lem asked hs [] h
