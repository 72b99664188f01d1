-- ===== src/Nginx/Headers.antt =====
-- `ngx_http_pinpoint_header_get`: a header looked up in nginx's list of parts.
use pinpoint_cpp_examples.Common.{
  ℕ, ◌≡◌, ◌≢◌, refl, sym, ap, Bool, false, ◌&&◌, Option, none, some, List, [], ◌∷◌, ◌++◌, arith,
  Text, lower, ◌==◌, length, text_eq, text_eq_iff, flatten, All, Bool-cases, inl, inr, ==_iff,
  if◌then◌else◌,
}

pub record Header : Type 0 where
  pub key : Text
  pub value : Text

-- `out_of_bounds` is a read of `h[0]` in a part that holds nothing.
pub data Lookup : Type 0 where
  found : Text → Lookup
  not_found : Lookup
  out_of_bounds : Lookup

-- `ngx_strncasecmp(s1, s2, n) == 0`.
abbrev pub Comparison : Type 0
Comparison = Text → Text → ℕ → Bool

abbrev pub folded : Text → Text
folded [] = []
folded (c ∷ s) = lower c ∷ folded s

-- nginx compares ASCII letters without regard to case; here for texts of `n` bytes.
abbrev pub IgnoresCase : Comparison → Type 0
IgnoresCase cmp =
    (s t : Text) (n : ℕ) → length s ≡ n → length t ≡ n → cmp s t n ≡ text_eq (folded s) (folded t)

module _ (strncasecmp : Comparison) where
  matches : Header → Text → Bool
  matches h key = (length h.key == length key) && strncasecmp h.key key (length key)

  -- The loop: what is left of the current part from `h[i]` on, and the parts behind it.
  scan : Text → List Header → List (List Header) → Lookup
  scan key (h ∷ hs) parts = if matches h key then found h.value else scan key hs parts
  scan key [] [] = not_found
  scan key [] ([] ∷ parts) = out_of_bounds
  scan key [] ((h ∷ hs) ∷ parts) = if matches h key then found h.value else scan key hs parts

  unfoldable pub header_get : List Header → List (List Header) → Text → Lookup
  unfolding scan matches
  header_get first rest key = scan key first rest

-- The first header of that name, in any case.
unfoldable pub first_named : Text → List Header → Option Text
first_named key [] = none
first_named key (h ∷ hs) =
    if text_eq (folded h.key) (folded key) then some h.value else first_named key hs

abbrev pub lookup_of : Option Text → Lookup
lookup_of none = not_found
lookup_of (some value) = found value

length-folded : (s : Text) → length (folded s) ≡ length s
length-folded [] = refl
length-folded (c ∷ s) = omega (arith, length-folded s)

other_length : (s t : Text) → (length s == length t) ≡ false → text_eq (folded s) (folded t) ≡ false
other_length s t e = elim (Bool-cases (text_eq (folded s) (folded t))) [
  | inl same ↦
      let lengths : length (folded s) ≡ length (folded t) =
        ap length ((text_eq_iff (folded s) (folded t)).0 same) in
      absurd (ground (arith, length-folded s, length-folded t, lengths))
  | inr differ ↦ differ
]

module _ (strncasecmp : Comparison) (law : IgnoresCase strncasecmp) where
  matches-folded :
      (h : Header) (key : Text) → matches strncasecmp h key ≡ text_eq (folded h.key) (folded key)
  unfolding matches
  matches-folded h key = elim (Bool-cases (length h.key == length key)) [
    | inl e ↦ rw e (law h.key key (length key) ((==_iff _ _).0 e) refl)
    | inr e ↦ rw e (sym (other_length h.key key e))
  ]

  scan-first :
      (key : Text) (hs : List Header) (parts : List (List Header))
      → All (λ p. p ≢ []) parts
      → scan strncasecmp key hs parts ≡ lookup_of (first_named key (hs ++ flatten parts))
  unfolding scan first_named
  scan-first key [] [] h = refl
  scan-first key [] ([] ∷ parts) h = absurd (h.0 refl)
  scan-first key [] ((x ∷ xs) ∷ parts) h =
      rw (matches-folded x key) (ground (arith, scan-first key xs parts h.1))
  scan-first key (x ∷ hs) parts h =
      rw (matches-folded x key) (ground (arith, scan-first key hs parts h))

  -- Looking a header up gives the value of the first header in the request's list whose name is the key
  -- in any case, or nothing if there is none, and never reads outside the list. As in every list that
  -- nginx builds, each part behind the first holds at least one header; the first may be empty.
  pub header_get-first_named :
      (first : List Header) (rest : List (List Header)) (key : Text)
      → All (λ p. p ≢ []) rest
      → header_get strncasecmp first rest key ≡ lookup_of (first_named key (first ++ flatten rest))
  unfolding header_get
  header_get-first_named first rest key h = scan-first key first rest h
