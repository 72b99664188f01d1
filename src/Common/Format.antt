-- ===== src/Common/Format.antt =====
-- `printf` with `%s` and `%d` as its directives.
use pinpoint_cpp_examples.Common.{
  ◌≡◌, refl, Bool, true, false, List, [], ◌∷◌, ◌++◌, Text, lit, ◌==◌,
}
use pinpoint_cpp_examples.Common.Decimal.{to_string}
use pinpoint_cpp_examples.Common.Int.{ℤ, pos, int_to_string}

pub data Arg : Type 0 where
  text : Text → Arg
  int : ℤ → Arg

shown : Arg → Text
shown (text t) = t
shown (int n) = int_to_string n

-- The next argument, where one is left.
next : List Arg → Text
unfolding shown
next [] = []
next (a ∷ args) = shown a

rest : List Arg → List Arg
rest [] = []
rest (a ∷ args) = args

-- The Boolean says that a `%` has just been read.
expand : Bool → Text → List Arg → Text
unfolding next rest
expand percent [] args = []
expand false (c ∷ format) args = elim (c == b'%') [
  | true ↦ expand true format args
  | false ↦ c ∷ expand false format args
]
expand true (c ∷ format) args = elim (c == b'%') [
  | true ↦ c ∷ expand false format args
  | false ↦ next args ++ expand false format (rest args)
]

unfoldable pub printf : Text → List Arg → Text
unfolding expand
printf = expand false

printf_address :
    printf (lit "%s:%d") (text (lit "127.0.0.1") ∷ int (pos 8080) ∷ []) ≡ lit "127.0.0.1:8080"
unfolding printf int_to_string to_string lit
printf_address = refl
