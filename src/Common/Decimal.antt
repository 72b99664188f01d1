-- ===== src/Common/Decimal.antt =====
-- `std::to_string` and `%d` of a value that is not negative.
use pinpoint_cpp_examples.Common.{
  ℕ, zero, suc, ◌+◌, ◌/◌, ◌%◌, ◌≡◌, refl, [], ◌∷◌, Text, lit, ltb, if◌then◌else◌,
}

-- The digits of `n`, most significant first, for a fuel above `n`.
unfoldable pub emit : ℕ → ℕ → Text → Text
emit zero n out = out
emit (suc f) n out =
    let rest = emit f (n / 10) ((b'0' + n % 10) ∷ out) in
    if ltb n 10 then (b'0' + n % 10) ∷ out else rest

unfoldable pub to_string : ℕ → Text
unfolding emit
to_string n = emit (suc n) n []

to_string_port : to_string 33060 ≡ lit "33060"
unfolding to_string lit
to_string_port = refl
