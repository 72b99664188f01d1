-- ===== src/Tests/Grpc.antt =====
-- Peers and targets of the gRPC example.
use pinpoint_cpp_examples.Common.{◌≡◌, refl, ◌++◌, ◌∷◌, arith, lit, is_empty, text_eq}
use pinpoint_cpp_examples.Common.Search.{starts_with, rfind_char}
use pinpoint_cpp_examples.Grpc.Peer.{resolve_peer_host, resolve_grpc_target}
use pinpoint_cpp_examples.Grpc.Peer.Forms.{ipv6_encoded, resolve_peer_host-PeerOf}

ipv6_peer : resolve_peer_host (lit "ipv6:%5B::1%5D:54321") ≡ lit "::1"
unfolding resolve_peer_host lit starts_with is_empty rfind_char text_eq
ipv6_peer = refl

unix_peer : resolve_peer_host (lit "unix:/tmp/foo.sock") ≡ lit "127.0.0.1"
unfolding resolve_peer_host lit starts_with is_empty rfind_char text_eq
unix_peer = refl

empty_brackets : resolve_peer_host (lit "ipv6:[]:80") ≡ lit "[]"
unfolding resolve_peer_host lit starts_with is_empty rfind_char text_eq
empty_brackets = refl

dns_target : resolve_grpc_target (lit "dns:///host:50051") ≡ lit "host:50051"
unfolding resolve_grpc_target lit starts_with
dns_target = refl

resolve_peer_host-PeerOf_example :
    resolve_peer_host
      (lit "ipv6:" ++ ((lit "%5B" ++ (lit "::1" ++ lit "%5D")) ++ b':' ∷ lit "54321"))
    ≡ lit "::1"
unfolding lit
resolve_peer_host-PeerOf_example =
    resolve_peer_host-PeerOf {host = lit "::1"} (ipv6_encoded (lit "54321") (cc) (omega arith))
