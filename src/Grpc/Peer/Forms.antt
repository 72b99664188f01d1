-- ===== src/Grpc/Peer/Forms.antt =====
-- The spellings of a peer, and what `ResolvePeerHost` makes of each.
use pinpoint_cpp_examples.Common.{
  ℕ, suc, ◌+◌, ◌-◌, ◌<◌, ◌≡◌, ◌≢◌, refl, sym, true, false, [], ◌∷◌, ◌++◌, arith, some, Text, lit,
  text_eq, is_empty, Lacks, ltb, lt→ltb, Bool-cases, inl, inr, length, length-append, get_elem?,
  take-append_left, drop-append_left,
}
use pinpoint_cpp_examples.Common.Search.{starts_with, rfind_char_last}
use pinpoint_cpp_examples.Grpc.Peer.{
  fallback, drop_port, unbracket, strip_scheme, or_fallback, resolve_peer_host,
}

-- A host that holds no bracket, neither plain nor percent-encoded.
pub record IsPlain (host : Text) : Type 0 where
  pub not_empty : host ≢ []
  pub no_bracket : Lacks b'[' host
  pub no_percent : Lacks b'%' host

-- The strings that gRPC hands out for a peer, with the host that each one names.
pub data PeerOf (host : Text) : Text → Type 0 where
  ipv4 :
      (port : Text)
      → IsPlain host
      → Lacks b':' port
      → PeerOf host (lit "ipv4:" ++ (host ++ b':' ∷ port))
  ipv6_encoded :
      (port : Text)
      → host ≢ []
      → Lacks b':' port
      → PeerOf host (lit "ipv6:" ++ ((lit "%5B" ++ (host ++ lit "%5D")) ++ b':' ∷ port))
  ipv6_bracketed :
      (port : Text)
      → host ≢ []
      → Lacks b':' port
      → PeerOf host (lit "ipv6:" ++ ((b'[' ∷ (host ++ b']' ∷ [])) ++ b':' ∷ port))
  unix_socket : (path : Text) → host ≡ fallback → PeerOf host (lit "unix:" ++ path)

drop_port_lem : (host port : Text) → Lacks b':' port → drop_port (host ++ b':' ∷ port) ≡ host
unfolding drop_port
drop_port_lem host port h =
    rw (drop_port, rfind_char_last host port b':' h) (take-append_left host _)

strip_scheme_ipv4 : (s : Text) → strip_scheme (lit "ipv4:" ++ s) ≡ s
unfolding strip_scheme starts_with lit
strip_scheme_ipv4 s = refl

strip_scheme_ipv6 : (s : Text) → strip_scheme (lit "ipv6:" ++ s) ≡ s
unfolding strip_scheme starts_with lit
strip_scheme_ipv6 s = refl

or_fallback_lem : (s : Text) → s ≢ [] → or_fallback s ≡ s
unfolding or_fallback is_empty
or_fallback_lem [] h = absurd (h refl)
or_fallback_lem (c ∷ s) h = refl

unbracket_plain : (s : Text) → IsPlain s → unbracket s ≡ s
unfolding unbracket starts_with lit
unbracket_plain [] h = refl
unbracket_plain (c ∷ s) h = ground arith

get_last : (s : Text) (c : ℕ) → get_elem? (s ++ c ∷ []) (length s) ≡ some c
get_last [] c = refl
get_last (x ∷ s) c = get_last s c

length_pos : (s : Text) → s ≢ [] → 0 < length s
length_pos [] h = absurd (h refl)
length_pos (x ∷ s) h = omega arith

unbracket_bracketed : (s : Text) → s ≢ [] → unbracket (b'[' ∷ (s ++ b']' ∷ [])) ≡ s
unfolding unbracket
unbracket_bracketed s h = rw (long, last, get_last s b']', inner) (take-append_left s _)
  where
    size : length (s ++ b']' ∷ []) ≡ length s + 1
    size = length-append s (b']' ∷ [])

    long : ltb 2 (suc (length (s ++ b']' ∷ []))) ≡ true
    long = lt→ltb _ _ (omega (arith, size, length_pos s h))

    last : suc (length (s ++ b']' ∷ [])) - 1 ≡ suc (length s)
    last = omega (arith, size)

    inner : suc (length (s ++ b']' ∷ [])) - 2 ≡ length s
    inner = omega (arith, size)

unbracket_encoded : (s : Text) → s ≢ [] → unbracket (lit "%5B" ++ (s ++ lit "%5D")) ≡ s
unfolding unbracket lit starts_with text_eq
unbracket_encoded s h =
    rw (long2, long6, tail, drop-append_left s (lit "%5D"), inner) (take-append_left s _)
  where
    size : length (s ++ lit "%5D") ≡ length s + 3
    size = length-append s (lit "%5D")

    long2 : ltb 2 (suc (suc (suc (length (s ++ lit "%5D"))))) ≡ true
    long2 = lt→ltb _ _ (omega (arith, size))

    long6 : ltb 6 (suc (suc (suc (length (s ++ lit "%5D"))))) ≡ true
    long6 = lt→ltb _ _ (omega (arith, size, length_pos s h))

    tail : suc (suc (suc (length (s ++ lit "%5D")))) - 3 ≡ suc (suc (suc (length s)))
    tail = omega (arith, size)

    inner : suc (suc (suc (length (s ++ lit "%5D")))) - 6 ≡ length s
    inner = omega (arith, size)

spells_unix : (s : Text) → starts_with (lit "unix:" ++ s) (lit "unix") ≡ true
unfolding starts_with lit
spells_unix s = refl

spells_ipv4 : (s : Text) → starts_with (lit "ipv4:" ++ s) (lit "unix") ≡ false
unfolding starts_with lit
spells_ipv4 s = refl

spells_ipv6 : (s : Text) → starts_with (lit "ipv6:" ++ s) (lit "unix") ≡ false
unfolding starts_with lit
spells_ipv6 s = refl

encoded-ne-nil : (s : Text) → lit "%5B" ++ s ≢ []
unfolding lit
encoded-ne-nil s h = cc

-- Whatever spelling gRPC uses for a peer, the function returns the host that it names: the address
-- with scheme, port and brackets gone, and 127.0.0.1 for a Unix socket.
pub resolve_peer_host-PeerOf : {host peer : Text} → PeerOf host peer → resolve_peer_host peer ≡ host
unfolding resolve_peer_host
resolve_peer_host-PeerOf {host} (ipv4 port plain h) =
    rw
      (
        spells_ipv4 (host ++ b':' ∷ port),
        strip_scheme_ipv4 (host ++ b':' ∷ port),
        drop_port_lem host port h,
        unbracket_plain host plain,
      )
      (or_fallback_lem host plain.not_empty)
resolve_peer_host-PeerOf {host} (ipv6_encoded port some_host h) =
    rw
      (spells_ipv6 _, strip_scheme_ipv6 _, drop_port_lem _ port h, unbracket_encoded host some_host)
      (or_fallback_lem host some_host)
resolve_peer_host-PeerOf {host} (ipv6_bracketed port some_host h) =
    rw
      (
        spells_ipv6 _,
        strip_scheme_ipv6 _,
        drop_port_lem _ port h,
        unbracket_bracketed host some_host,
      )
      (or_fallback_lem host some_host)
resolve_peer_host-PeerOf {host} (unix_socket path e) = rw (spells_unix path) (sym e)

or_fallback-ne-nil : (s : Text) → or_fallback s ≢ []
unfolding or_fallback is_empty lit
or_fallback-ne-nil [] h = cc
or_fallback-ne-nil (c ∷ s) h = cc

fallback-ne-nil : fallback ≢ []
unfolding fallback lit
fallback-ne-nil h = cc

-- A remote address is always reported: no peer string, however malformed, resolves to the empty text.
resolve_peer_host-ne-nil : (peer : Text) → resolve_peer_host peer ≢ []
unfolding resolve_peer_host
resolve_peer_host-ne-nil peer = elim (Bool-cases (starts_with peer (lit "unix"))) [
  | inl e ↦ rw e fallback-ne-nil
  | inr e ↦ rw e (or_fallback-ne-nil _)
]
