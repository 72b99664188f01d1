-- ===== src/Redis/Settings.antt =====
-- The start of `main`: REDIS_HOST, REDIS_PORT and the endpoint.
use pinpoint_cpp_examples.Common.{
  ℕ, zero, suc, ◌+◌, ◌-◌, ◌*◌, ◌/◌, ◌%◌, ◌^◌, ◌<◌, ◌≡◌, refl, ap, ◌∙◌, Bool, true, false, ◌&&◌,
  ◌||◌, Bool-cases, inl, inr, Option, none, some, [], ◌∷◌, ◌++◌, arith, Text, lit, ltb, leb, lt→ltb,
  ◌==◌, if◌then◌else◌,
}
use pinpoint_cpp_examples.Common.Decimal.{emit, to_string}
use pinpoint_cpp_examples.Common.Int.{ℤ, pos, negsuc, int_to_string}
use pinpoint_cpp_examples.Common.Environ.{Environ, getenv}
use pinpoint_cpp_examples.Redis.Command.{Config}

abbrev is_digit : ℕ → Bool
is_digit c = leb b'0' c && leb c b'9'

-- Digits to the first byte that is none.
digits : ℕ → Text → ℕ
digits n [] = n
digits n (c ∷ s) = let more = digits (n * 10 + (c - b'0')) s in if is_digit c then more else n

-- A value that fits an `int`; `none` is undefined behaviour.
in_int : Bool → ℕ → Option ℤ
in_int negative n =
    if ltb n (2 ^ 31)
    then some (if negative then elim n [ zero ↦ pos 0 | suc m ↦ negsuc m ] else pos n)
    else none

signed : Text → Option ℤ
unfolding digits in_int
signed [] = some (pos 0)
signed (c ∷ s) = elim (c == b'-') [
  | true ↦ in_int true (digits 0 s)
  | false ↦ elim (c == b'+') [
    | true ↦ in_int false (digits 0 s)
    | false ↦ in_int false (digits 0 (c ∷ s))
  ]
]

-- `std::atoi`: white space, a sign, digits. The least `int` counts as out of range.
unfoldable pub atoi : Text → Option ℤ
unfolding signed
atoi [] = some (pos 0)
atoi (c ∷ s) =
    let rest = atoi s in if (c == b' ') || (leb 9 c && leb c 13) then rest else signed (c ∷ s)

digit_ok : (d : ℕ) → d < 10 → is_digit (b'0' + d) ≡ true
digit_ok d h = ground arith

read_digit : (m d : ℕ) (out : Text) → d < 10 → digits m ((b'0' + d) ∷ out) ≡ digits (m * 10 + d) out
unfolding digits
read_digit m d out h =
    let same : m * 10 + (b'0' + d - b'0') ≡ m * 10 + d = omega arith in
    rw (digit_ok d h) (ap (λ k. digits k out) same)

-- Each digit that is printed is read again.
digits-emit : (f n : ℕ) (out : Text) → n < f → digits 0 (emit f n out) ≡ digits n out
unfolding emit
digits-emit zero n out h = absurd (omega arith)
digits-emit (suc f) n out h =
    let digit : n % 10 < 10 = omega arith in
    let whole : n / 10 * 10 + n % 10 ≡ n = omega arith in
    elim (Bool-cases (ltb n 10)) [
      | inl e ↦
          let small : 0 * 10 + n % 10 ≡ n = ground arith in
          rw e (read_digit 0 (n % 10) out digit ∙ ap (λ k. digits k out) small)
      | inr e ↦
          let smaller : n / 10 < f = ground arith in
          rw e (
            digits-emit f (n / 10) ((b'0' + n % 10) ∷ out) smaller
            ∙ read_digit (n / 10) (n % 10) out digit
            ∙ ap (λ k. digits k out) whole)
    ]

-- A printed number starts with a digit.
abbrev StartsWithDigit : Text → Type 0
StartsWithDigit t = (d : ℕ) × ((s : Text) × (t ≡ (b'0' + d) ∷ s) × (d < 10))

emit-StartsWithDigit : (f n : ℕ) (out : Text) → n < f → StartsWithDigit (emit f n out)
unfolding emit
emit-StartsWithDigit zero n out h = absurd (omega arith)
emit-StartsWithDigit (suc f) n out h =
    let digit : n % 10 < 10 = omega arith in
    elim (Bool-cases (ltb n 10)) [
      | inl e ↦ rw e (n % 10, (out, refl, digit))
      | inr e ↦
          let smaller : n / 10 < f = ground arith in
          rw e (emit-StartsWithDigit f (n / 10) ((b'0' + n % 10) ∷ out) smaller)
    ]

no_space : (d : ℕ) → ((b'0' + d == b' ') || (leb 9 (b'0' + d) && leb (b'0' + d) 13)) ≡ false
no_space d = ground arith

no_minus : (d : ℕ) → (b'0' + d == b'-') ≡ false
no_minus d = ground arith

no_plus : (d : ℕ) → (b'0' + d == b'+') ≡ false
no_plus d = ground arith

-- Where no test holds the last branch is taken.
last_of :
    (a b c : Bool) (w x y z : Option ℤ)
    → a ≡ false
    → b ≡ false
    → c ≡ false
    → (if a then w else elim b [ true ↦ x | false ↦ elim c [ true ↦ y | false ↦ z ] ]) ≡ z
last_of false false false w x y z e f g = refl
last_of true b c w x y z e f g = cc
last_of false true c w x y z e f g = cc
last_of false false true w x y z e f g = cc

atoi-digit : (d : ℕ) (s : Text) → atoi ((b'0' + d) ∷ s) ≡ in_int false (digits 0 ((b'0' + d) ∷ s))
unfolding atoi signed
atoi-digit d s = last_of _ _ _ _ _ _ _ (no_space d) (no_minus d) (no_plus d)

atoi-printed : (t : Text) → StartsWithDigit t → atoi t ≡ in_int false (digits 0 t)
atoi-printed t (d, (s, e, h)) = rw e (atoi-digit d s)

in_int-fits : (n : ℕ) → n < 2 ^ 31 → in_int false n ≡ some (pos n)
unfolding in_int
in_int-fits n h = rw (lt→ltb n (2 ^ 31) h) refl

atoi-emit : (n : ℕ) → n < 2 ^ 31 → atoi (emit (suc n) n []) ≡ some (pos n)
unfolding digits
atoi-emit n h =
    atoi-printed (emit (suc n) n []) (emit-StartsWithDigit (suc n) n [] (omega arith))
    ∙ ap (in_int false) (digits-emit (suc n) n [] (omega arith))
    ∙ in_int-fits n h

atoi-to_string : (n : ℕ) → n < 2 ^ 31 → atoi (to_string n) ≡ some (pos n)
unfolding to_string
atoi-to_string n h = atoi-emit n h

abbrev or_text : Option Text → Text → Text
or_text none default = default
or_text (some t) default = t

-- The port, `none` where `atoi` is undefined.
port_of : Option Text → Option ℤ
unfolding atoi
port_of none = some (pos 6379)
port_of (some t) = atoi t

config_of : Text → Option ℤ → Option Config
config_of host none = none
config_of host (some port) =
    some (record { host = host; port = port; endpoint = host ++ (b':' ∷ int_to_string port) })

unfoldable pub redis_config : Environ → Option Config
unfolding port_of config_of
redis_config env =
    config_of (or_text (getenv (lit "REDIS_HOST") env) (lit "localhost"))
      (port_of (getenv (lit "REDIS_PORT") env))

-- With a host and a decimal port in the environment the example connects to that host and that port, and
-- its endpoint, which the span events and the response show, is the two joined by a colon. The port fits an
-- `int`.
pub redis_config-named :
    (env : Environ) (host : Text) (n : ℕ)
    → getenv (lit "REDIS_HOST") env ≡ some host
    → getenv (lit "REDIS_PORT") env ≡ some (to_string n)
    → n < 2 ^ 31
    → redis_config env
      ≡ some (record { host = host; port = pos n; endpoint = host ++ (b':' ∷ to_string n) })
unfolding redis_config config_of port_of int_to_string
redis_config-named env host n h k small = rw (h, k, atoi-to_string n small) refl
