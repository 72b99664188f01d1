-- ===== src/Common/Search.antt =====
-- `find`, `rfind` and prefix tests, as the string classes of C++ define them, and their laws.
use pinpoint_cpp_examples.Common.{
  ℕ, zero, suc, ◌≡◌, refl, ap, Bool, true, false, ◌&&◌, Option, ◌⊎◌, inl, inr, none, some, [], ◌∷◌,
  ◌++◌, arith, Text, Lacks, ◌==◌, if◌then◌else◌, length, take, drop, ==_refl,
}

-- `s.rfind(prefix, 0) == 0` and `s.compare(0, prefix.length(), prefix) == 0`.
unfoldable pub starts_with : Text → Text → Bool
starts_with s [] = true
starts_with [] (p ∷ ps) = false
starts_with (c ∷ s) (p ∷ ps) = (c == p) && starts_with s ps

abbrev pub shift : Option ℕ → Option ℕ
shift none = none
shift (some i) = some (suc i)

-- `s.find(c)`.
unfoldable pub find_char : Text → ℕ → Option ℕ
find_char [] c = none
find_char (x ∷ s) c = if x == c then some 0 else shift (find_char s c)

abbrev later_or : Option ℕ → Bool → Option ℕ
later_or (some i) here = some (suc i)
later_or none here = if here then some 0 else none

-- `s.rfind(c)`.
unfoldable pub rfind_char : Text → ℕ → Option ℕ
rfind_char [] c = none
rfind_char (x ∷ s) c = later_or (rfind_char s c) (x == c)

-- `s.find(p)`.
unfoldable pub find_text : Text → Text → Option ℕ
unfolding starts_with
find_text [] p = if starts_with [] p then some 0 else none
find_text (x ∷ s) p = if starts_with (x ∷ s) p then some 0 else shift (find_text s p)

-- `s.rfind(p)`.
unfoldable pub rfind_text : Text → Text → Option ℕ
unfolding starts_with
rfind_text [] p = if starts_with [] p then some 0 else none
rfind_text (x ∷ s) p = later_or (rfind_text s p) (starts_with (x ∷ s) p)

pub starts_with-append : (p s : Text) → starts_with (p ++ s) p ≡ true
unfolding starts_with
starts_with-append [] s = refl
starts_with-append (c ∷ p) s = rw (==_refl c) (starts_with-append p s)

pub starts_with-drop : (s p : Text) → starts_with s p ≡ true → p ++ drop (length p) s ≡ s
unfolding starts_with
starts_with-drop s [] h = refl
starts_with-drop [] (c ∷ p) h = cc
starts_with-drop (x ∷ s) (c ∷ p) h = ground (arith, starts_with-drop s p)

pub find_char-none : (s : Text) (c : ℕ) → Lacks c s → find_char s c ≡ none
unfolding find_char
find_char-none [] c h = refl
find_char-none (x ∷ s) c h = ground (arith, find_char-none s c h.1)

pub find_char_first : (a b : Text) (c : ℕ) → Lacks c a → find_char (a ++ c ∷ b) c ≡ some (length a)
unfolding find_char
find_char_first [] b c h = rw (==_refl c)
find_char_first (x ∷ a) b c h = ground (arith, find_char_first a b c h.1)

pub rfind_char-none : (s : Text) (c : ℕ) → Lacks c s → rfind_char s c ≡ none
unfolding rfind_char
rfind_char-none [] c h = refl
rfind_char-none (x ∷ s) c h = ground (arith, rfind_char-none s c h.1)

pub rfind_char_last : (a b : Text) (c : ℕ) → Lacks c b → rfind_char (a ++ c ∷ b) c ≡ some (length a)
unfolding rfind_char
rfind_char_last [] b c h = rw (rfind_char-none b c h, ==_refl c)
rfind_char_last (x ∷ a) b c h = rw (rfind_char_last a b c h)

pub take-append-drop : (n : ℕ) (s : Text) → take n s ++ drop n s ≡ s
take-append-drop zero s = refl
take-append-drop (suc n) [] = refl
take-append-drop (suc n) (x ∷ s) = ap (λ t. x ∷ t) (take-append-drop n s)

later_or-cases :
    (o : Option ℕ) (here : Bool) (i : ℕ)
    → later_or o here ≡ some i
    → ((j : ℕ) × (o ≡ some j) × (i ≡ suc j)) ⊎ ((o ≡ none) × (here ≡ true) × (i ≡ 0))
later_or-cases (some j) here i h = inl (j, refl, ground arith)
later_or-cases none true i h = inr (refl, refl, ground arith)
later_or-cases none false i h = cc

later_or-none : (o : Option ℕ) (here : Bool) → later_or o here ≡ none → o ≡ none
later_or-none (some j) here h = cc
later_or-none none here h = refl

shift-cases :
    (o : Option ℕ) (here : Bool) (i : ℕ)
    → (if here then some 0 else shift o) ≡ some i
    → ((here ≡ true) × (i ≡ 0)) ⊎ ((j : ℕ) × (o ≡ some j) × (i ≡ suc j) × (here ≡ false))
shift-cases o true i h = inl (refl, ground arith)
shift-cases none false i h = cc
shift-cases (some j) false i h = inr (j, refl, ground arith, refl)

module _ (c : ℕ) (ps : Text) where
  -- What `rfind` returns is a place where the text stands, and it stands nowhere behind.
  pub rfind_text_last :
      (s : Text) (i : ℕ)
      → rfind_text s (c ∷ ps) ≡ some i
      → (starts_with (drop i s) (c ∷ ps) ≡ true) × (rfind_text (drop (suc i) s) (c ∷ ps) ≡ none)
  unfolding rfind_text
  rfind_text_last [] i h = cc
  rfind_text_last (x ∷ s) i h = elim (later_or-cases _ _ i h) [
    | inl (j, e, k) ↦ rw k (rfind_text_last s j e)
    | inr (e, b, k) ↦ rw k (b, e)
  ]

  pub rfind_text-drop :
      (n : ℕ) (s : Text) → rfind_text s (c ∷ ps) ≡ none → rfind_text (drop n s) (c ∷ ps) ≡ none
  unfolding rfind_text
  rfind_text-drop zero s h = h
  rfind_text-drop (suc n) [] h = h
  rfind_text-drop (suc n) (x ∷ s) h = rfind_text-drop n s (later_or-none _ _ h)

-- What `find` returns is the first place of the character.
pub find_text_first :
    (c : ℕ) (s : Text) (i : ℕ)
    → find_text s (c ∷ []) ≡ some i
    → Lacks c (take i s) × (take i s ++ c ∷ drop (suc i) s ≡ s)
unfolding find_text starts_with
find_text_first c [] i h = cc
find_text_first c (x ∷ s) i h = elim (shift-cases _ _ i h) [
  | inl (b, k) ↦ rw k (tt, ground arith)
  | inr (j, e, k, b) ↦
      let (lacks, same) = find_text_first c s j e in
      rw k ((ground arith, lacks), ap (λ t. x ∷ t) same)
]
