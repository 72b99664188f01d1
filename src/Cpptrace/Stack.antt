-- ===== src/Cpptrace/Stack.antt =====
-- `CppTraceCallStackReader`. cpptrace is a parameter: the frames of the trace, and what `prune_symbol` and
-- `basename` make of a text.
use pinpoint_cpp_examples.Common.{
  ℕ, zero, suc, ◌+◌, ◌-◌, ◌^◌, ◌≡◌, refl, sym, ap, ◌∙◌, ◌⊎◌, inl, inr, Bool, true, false, ◌||◌,
  Option, none, some, List, [], ◌∷◌, ◌++◌, Text, lit, is_empty, ltb, Lacks, take, drop,
  if◌then◌else◌, Bool-cases, Option-cases, arith,
}
use pinpoint_cpp_examples.Common.Int.{ℤ, pos, negsuc}
use pinpoint_cpp_examples.Common.Search.{
  starts_with, find_text, rfind_text, starts_with-drop, take-append-drop, rfind_text_last,
  rfind_text-drop, find_text_first,
}

-- A `stacktrace_frame`: its line may be missing.
pub record Frame : Type 0 where
  pub symbol : Text
  pub filename : Text
  pub line : Option ℕ

-- What the callback is given.
pub record Report : Type 0 where
  pub module_name : Text
  pub function : Text
  pub file : Text
  pub line : ℤ

-- A `uint32_t` passed as an `int`.
unfoldable pub to_int : ℕ → ℤ
to_int n = if ltb n (2 ^ 31) then pos n else negsuc (2 ^ 32 - 1 - n)

line_or_zero : Option ℕ → ℤ
unfolding to_int
line_or_zero none = to_int 0
line_or_zero (some n) = to_int n

-- `file` and `line`, from the base name.
unfoldable pub place_of : Text → Option ℕ → Text × ℤ
unfolding line_or_zero
place_of [] line = (lit "unknown", pos 0)
place_of (c ∷ name) line = (c ∷ name, line_or_zero line)

stem : Text → Option ℕ → Text
stem file none = lit "unknown"
stem file (some i) = take i file

-- `module` and `function`, for where "::" is last found.
split_symbol : Text → Text → Option ℕ → Text × Text
unfolding stem
split_symbol symbol file (some i) = (take i symbol, drop (i + 2) symbol)
split_symbol symbol file none = (stem file (find_text file (b'.' ∷ [])), symbol)

unfoldable pub name_of : Text → Text → Text × Text
unfolding split_symbol
name_of symbol file = split_symbol symbol file (rfind_text symbol (b':' ∷ b':' ∷ []))

unfoldable pub is_hidden : Text → Bool
is_hidden symbol = is_empty symbol || starts_with symbol (lit "std::")

module _ (prune_symbol basename : Text → Text) where
  unfoldable pub report_of : Frame → Report
  unfolding place_of name_of
  report_of frame =
      let symbol = prune_symbol frame.symbol in
      let (file, line) = place_of (basename frame.filename) frame.line in
      let (m, f) = name_of symbol file in
      record { module_name = m; function = f; file = file; line = line }

  -- The calls of the callback.
  unfoldable pub for_each : List Frame → List Report
  unfolding report_of is_hidden
  for_each [] = []
  for_each (frame ∷ frames) =
      let reports = for_each frames in
      if is_hidden (prune_symbol frame.symbol) then reports else report_of frame ∷ reports

-- The part of a file's name in front of its first dot.
abbrev pub IsStem : Text → Text → Type 0
IsStem file m =
    ((find_text file (b'.' ∷ []) ≡ none) × (m ≡ lit "unknown"))
    ⊎ (Lacks b'.' m × ((rest : Text) × (m ++ b'.' ∷ rest ≡ file)))

-- A symbol is cut at its last "::"; one that has none is a function of its file.
abbrev pub IsSplit : Text → Text → Text → Text → Type 0
IsSplit symbol file m f =
    ((m ++ b':' ∷ b':' ∷ f ≡ symbol) × (rfind_text f (b':' ∷ b':' ∷ []) ≡ none))
    ⊎ ((rfind_text symbol (b':' ∷ b':' ∷ []) ≡ none) × (f ≡ symbol) × IsStem file m)

-- The place of a frame; without a file's name there is no line either.
abbrev pub IsPlace : Text → Option ℕ → Text → ℤ → Type 0
IsPlace name line file at =
    ((name ≡ []) × (file ≡ lit "unknown") × (at ≡ pos 0))
    ⊎ ((file ≡ name)
        × ((line ≡ none) × (at ≡ pos 0) ⊎ ((n : ℕ) × (line ≡ some n) × (at ≡ to_int n))))

abbrev pub IsReport : (Text → Text) → (Text → Text) → Frame → Report → Type 0
IsReport prune_symbol basename frame r =
    IsSplit (prune_symbol frame.symbol) r.file r.module_name r.function
    × IsPlace (basename frame.filename) frame.line r.file r.line

-- The reports of a trace: frames without a symbol and those of the standard library are left out, the
-- others are reported in order.
pub data Reports (prune_symbol basename : Text → Text) : List Frame → List Report → Type 0 where
  nothing : Reports prune_symbol basename [] []
  skipped :
      {frame : Frame} {frames : List Frame} {reports : List Report}
      → is_hidden (prune_symbol frame.symbol) ≡ true
      → Reports prune_symbol basename frames reports
      → Reports prune_symbol basename (frame ∷ frames) reports
  reported :
      {frame : Frame} {frames : List Frame} {r : Report} {reports : List Report}
      → is_hidden (prune_symbol frame.symbol) ≡ false
      → IsReport prune_symbol basename frame r
      → Reports prune_symbol basename frames reports
      → Reports prune_symbol basename (frame ∷ frames) (r ∷ reports)

stem-IsStem : (file : Text) → IsStem file (stem file (find_text file (b'.' ∷ [])))
unfolding stem
stem-IsStem file = elim (Option-cases (find_text file (b'.' ∷ []))) [
  | inl e ↦ rw e (inl (refl, refl))
  | inr (i, e) ↦
      let (lacks, same) = find_text_first b'.' file i e in
      rw e (inr (lacks, (drop (suc i) file, same)))
]

drop-nil : (n : ℕ) → drop {A = ℕ} n [] ≡ []
drop-nil zero = refl
drop-nil (suc n) = refl

drop-drop : (m n : ℕ) (s : Text) → drop (n + m) s ≡ drop m (drop n s)
drop-drop m zero s = ap (λ k. drop k s) (omega arith)
drop-drop m (suc n) [] = drop-nil (suc n + m) ∙ sym (drop-nil m)
drop-drop m (suc n) (x ∷ s) =
    let e : suc n + m ≡ suc (n + m) = omega arith in ap (λ k. drop k (x ∷ s)) e ∙ drop-drop m n s

-- What is behind the "::" at `i`.
behind : (i : ℕ) (s : Text) → drop (i + 2) s ≡ drop 1 (drop (suc i) s)
behind i s = let e : i + 2 ≡ suc i + 1 = omega arith in ap (λ k. drop k s) e ∙ drop-drop 1 (suc i) s

name_of-IsSplit :
    (symbol file : Text) → IsSplit symbol file (name_of symbol file).0 (name_of symbol file).1
unfolding name_of split_symbol
name_of-IsSplit symbol file = elim (Option-cases (rfind_text symbol (b':' ∷ b':' ∷ []))) [
  | inl e ↦ rw e (inr (refl, refl, stem-IsStem file))
  | inr (i, e) ↦
      let (here, none_behind) = rfind_text_last b':' (b':' ∷ []) symbol i e in
      rw e (
        inl (
          ap (λ t. take i symbol ++ b':' ∷ b':' ∷ t) (drop-drop 2 i symbol)
              ∙ ap (λ t. take i symbol ++ t)
                  (starts_with-drop (drop i symbol) (b':' ∷ b':' ∷ []) here)
              ∙ take-append-drop i symbol,
          ap (λ t. rfind_text t (b':' ∷ b':' ∷ [])) (behind i symbol)
              ∙ rfind_text-drop b':' (b':' ∷ []) 1 (drop (suc i) symbol) none_behind,
        ))
]

place_of-IsPlace :
    (name : Text) (line : Option ℕ)
    → IsPlace name line (place_of name line).0 (place_of name line).1
unfolding place_of line_or_zero to_int
place_of-IsPlace [] line = inl (refl, refl, refl)
place_of-IsPlace (c ∷ name) none = inr (refl, inl (refl, refl))
place_of-IsPlace (c ∷ name) (some n) = inr (refl, inr (n, refl, refl))

-- The reader reports every frame of the trace in order, but for those without a symbol or of the standard
-- library. A symbol is cut at its last "::" into the module and the function, which join to the symbol again;
-- for one without "::" the module is the file's name up to its first dot, or unknown. A frame without a
-- file's name has neither file nor line.
pub for_each-Reports :
    (prune_symbol basename : Text → Text) (frames : List Frame)
    → Reports prune_symbol basename frames (for_each prune_symbol basename frames)
unfolding for_each report_of
for_each-Reports prune_symbol basename [] = nothing
for_each-Reports prune_symbol basename (frame ∷ frames) =
    elim (Bool-cases (is_hidden (prune_symbol frame.symbol))) [
      | inl e ↦ rw e (skipped e (for_each-Reports prune_symbol basename frames))
      | inr e ↦ rw e (
          reported e (name_of-IsSplit _ _, place_of-IsPlace _ _)
            (for_each-Reports prune_symbol basename frames))
    ]
