-- ===== src/Nginx/CString.antt =====
-- `ngx_http_pinpoint_to_cstr`.
use pinpoint_cpp_examples.Common.{
  ℕ, zero, suc, ◌+◌, ◌-◌, ◌%◌, ◌^◌, ◌≤◌, ◌<◌, ◌≡◌, refl, [], ◌∷◌, ◌++◌, arith, Text, Lacks,
  c_string, ltb, if◌then◌else◌, length, take, length-append, length-take, take_all,
}

-- `size_t n = src->len < dst_size - 1 ? src->len : dst_size - 1`.
copied : Text → ℕ → ℕ
copied src dst_size =
    let room = (dst_size + 2 ^ 64 - 1) % 2 ^ 64 in
    if ltb (length src) room then length src else room

-- The bytes written to `dst`.
unfoldable pub to_cstr : Text → ℕ → Text
unfolding copied
to_cstr src dst_size = take (copied src dst_size) src ++ 0 ∷ []

c_string-terminated : (s rest : Text) → Lacks 0 s → c_string (s ++ 0 ∷ rest) ≡ s
unfolding c_string
c_string-terminated [] rest h = refl
c_string-terminated (c ∷ s) rest h = ground (arith, c_string-terminated s rest h.1)

take-Lacks : (n : ℕ) (s : Text) → Lacks 0 s → Lacks 0 (take n s)
take-Lacks zero s h = tt
take-Lacks (suc n) [] h = tt
take-Lacks (suc n) (c ∷ s) h = (h.0, take-Lacks n s h.1)

room_lem : (n : ℕ) → 0 < n → n < 2 ^ 64 → (n + 2 ^ 64 - 1) % 2 ^ 64 ≡ n - 1
room_lem n h k = omega arith

copied_lem : (src : Text) (n : ℕ) → 0 < n → n < 2 ^ 64 → take (copied src n) src ≡ take (n - 1) src
unfolding copied
copied_lem src n h k =
    rw (room_lem n h k) (ground (arith, take_all (length src) src, take_all (n - 1) src))

-- What is written fits the buffer, and C reads it back as the text, cut to one byte less than the
-- buffer's size. The size is positive and fits a `size_t`, and the text holds no NUL.
pub to_cstr-fits :
    (src : Text) (dst_size : ℕ)
    → 0 < dst_size
    → dst_size < 2 ^ 64
    → Lacks 0 src
    → (length (to_cstr src dst_size) ≤ dst_size)
      × (c_string (to_cstr src dst_size) ≡ take (dst_size - 1) src)
unfolding to_cstr
to_cstr-fits src n h k no_nul = (
  rw (copied_lem src n h k)
      (omega (arith, length-append (take (n - 1) src) (0 ∷ []), length-take (n - 1) src)),
  rw (copied_lem src n h k)
      (c_string-terminated (take (n - 1) src) [] (take-Lacks (n - 1) src no_nul)),
)
