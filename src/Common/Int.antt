-- ===== src/Common/Int.antt =====
-- Signed integers, as `std::to_string` prints them. `negsuc n` is -(n + 1).
use pinpoint_cpp_examples.Common.{ℕ, suc, ◌≡◌, refl, ◌∷◌, Text, lit}
use pinpoint_cpp_examples.Common.Decimal.{to_string}

pub data ℤ : Type 0 where
  pos : ℕ → ℤ
  negsuc : ℕ → ℤ

unfoldable pub int_to_string : ℤ → Text
int_to_string (pos n) = to_string n
int_to_string (negsuc n) = b'-' ∷ to_string (suc n)

int_to_string_neg : int_to_string (negsuc 1000) ≡ lit "-1001"
unfolding int_to_string to_string lit
int_to_string_neg = refl
