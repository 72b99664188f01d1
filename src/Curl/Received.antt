-- ===== src/Curl/Received.antt =====
-- `WriteCallback`, and what libcurl's calls of it leave in the string that it is given.
use pinpoint_cpp_examples.Common.{
  ℕ, ◌*◌, ◌%◌, ◌^◌, ◌<◌, ◌≡◌, refl, sym, ap, ◌∙◌, List, [], ◌∷◌, ◌++◌, append-nil, append_assoc,
  Text, length, take, flatten, All, arith,
}

-- The arguments of a call; `contents` is the memory behind the pointer.
pub record Chunk : Type 0 where
  pub contents : Text
  pub size : ℕ
  pub nmemb : ℕ

-- What libcurl documents of a call: `size` is 1 and `nmemb` the number of the bytes.
abbrev pub IsWhole : Chunk → Type 0
IsWhole c = (c.size ≡ 1) × (c.nmemb ≡ length c.contents) × (length c.contents < 2 ^ 64)

-- The number of bytes taken, and the string.
unfoldable pub write_callback : Chunk → Text → ℕ × Text
write_callback c response =
    let n = (c.size * c.nmemb) % 2 ^ 64 in (n, response ++ take n c.contents)

-- The calls of a transfer, one for each piece that arrives.
unfoldable pub received : List Chunk → Text → Text
unfolding write_callback
received [] response = response
received (c ∷ chunks) response = received chunks (write_callback c response).1

abbrev pub pieces : List Chunk → List Text
pieces [] = []
pieces (c ∷ chunks) = c.contents ∷ pieces chunks

take-length : (s : Text) → take (length s) s ≡ s
take-length [] = refl
take-length (c ∷ s) = ap (λ t. c ∷ t) (take-length s)

-- The callback takes the whole piece and says so, which keeps the transfer going.
write_callback_lem :
    (c : Chunk) (response : Text)
    → IsWhole c
    → write_callback c response ≡ (length c.contents, response ++ c.contents)
unfolding write_callback
write_callback_lem c response (one, whole, fits) =
    let n : (c.size * c.nmemb) % 2 ^ 64 ≡ length c.contents = ground (arith, one, whole, fits) in
    rw (n, take-length) refl

pub received_lem :
    (chunks : List Chunk) (response : Text)
    → All IsWhole chunks
    → received chunks response ≡ response ++ flatten (pieces chunks)
unfolding received
received_lem [] response h = sym (append-nil response)
received_lem (c ∷ chunks) response h = rw (ap (λ r. r.1) (write_callback_lem c response h.0)) (
    received_lem chunks (response ++ c.contents) h.1
    ∙ append_assoc response c.contents (flatten (pieces chunks)))
