-- ===== src/Grpc/Peer.antt =====
-- `ResolvePeerHost` and `ResolveGrpcTarget` of grpc/pinpoint_grpc_interceptors.h.
pub mod Forms
use pinpoint_cpp_examples.Common.{
  ℕ, ◌-◌, Bool, true, false, ◌&&◌, ◌||◌, Option, none, some, arith, ◌≡◌, refl, Text, lit, text_eq,
  is_empty, ◌==◌, ltb, if◌then◌else◌, length, take, drop, get_elem?,
}
use pinpoint_cpp_examples.Common.Search.{starts_with, rfind_char}

unfoldable pub fallback : Text
fallback = lit "127.0.0.1"

-- `peer.substr(0, colon)` when there is a colon.
drop_port : Text → Text
drop_port peer = elim (rfind_char peer b':') [ some colon ↦ take colon peer | none ↦ peer ]

char_is : Option ℕ → ℕ → Bool
char_is none c = false
char_is (some d) c = d == c

unbracket : Text → Text
unfolding char_is
unbracket peer =
    if ltb 2 (length peer)
      && char_is (get_elem? peer 0) b'['
      && char_is (get_elem? peer (length peer - 1)) b']'
    then take (length peer - 2) (drop 1 peer)
    else if ltb 6 (length peer)
        && starts_with peer (lit "%5B")
        && text_eq (drop (length peer - 3) peer) (lit "%5D")
    then take (length peer - 6) (drop 3 peer)
    else peer

strip_scheme : Text → Text
strip_scheme peer =
    if starts_with peer (lit "ipv4:") || starts_with peer (lit "ipv6:") then drop 5 peer else peer

or_fallback : Text → Text
unfolding fallback
or_fallback peer = if is_empty peer then fallback else peer

unfoldable pub resolve_peer_host : Text → Text
unfolding drop_port unbracket strip_scheme or_fallback
resolve_peer_host peer =
    if starts_with peer (lit "unix")
    then fallback
    else or_fallback (unbracket (drop_port (strip_scheme peer)))

unfoldable pub resolve_grpc_target : Text → Text
resolve_grpc_target target =
    if starts_with target (lit "unix:")
    then lit "localhost"
    else if starts_with target (lit "dns:///")
    then drop (length (lit "dns:///")) target
    else target
