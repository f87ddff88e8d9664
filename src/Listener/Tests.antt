-- ===== src/Listener/Tests.antt =====
-- src/listener.rs: a socket that is still there after a crash.
use oxide_http.Prelude.{
  if◌then◌else◌, Text, codes, text_eq, decimal, Option, none, some, ok, err, [], ◌∷◌, false, ◌≡◌,
  refl,
}
use oxide_http.Config.Tune.{default_socket}
use oxide_http.Listener.{
  issue, calls_for, address, System, Files, socket, no_socket, link, bind_unix, bind_tcp, Call,
  new_socket, reuse_address, bind, addr_in_use,
}
use oxide_http.Listener.Unix.{IsCareful, bind_unix-IsCareful}

abbrev works : System
works = record {
  metadata_fails = λ p. none;
  remove_fails = λ p. none;
  bind_fails = λ p. none;
  nonblocking_fails = none;
  Addr = Text;
  parse_addr = λ s. some s;
  to_socket_addrs = λ host port. ok [];
  is_ipv6 = λ a. false;
}

-- A socket of an earlier run, and a link to it.
abbrev left_over : Files
left_over q =
    if text_eq q (codes "/s")
    then some socket
    else if text_eq q (codes "/l")
    then some (link (codes "/s"))
    else some no_socket

unix_example : IsCareful (codes "/l") left_over (bind_unix works (codes "/l") left_over)
unix_example = bind_unix-IsCareful works (codes "/l") left_over

bound_again : (bind_unix works (codes "/s") left_over).0 ≡ ok tt
unfolding bind_unix text_eq
bound_again = refl

link_taken :
    ((bind_unix works (codes "/l") left_over).1 (codes "/l") ≡ some socket)
    × ((bind_unix works (codes "/l") left_over).1 (codes "/s") ≡ some socket)
unfolding bind_unix text_eq
link_taken = (refl, refl)

refused_file :
    (bind_unix works (codes "/f") left_over).0 ≡ err (codes "/f: file exists and is not a socket")
unfolding bind_unix text_eq
refused_file = refl

abbrev busy : Call works → Option Text
busy (bind a) = some addr_in_use
busy c = none

busy_port :
    bind_tcp works busy (codes "::") 80 default_socket
    ≡ (new_socket false ∷ reuse_address ∷ bind (codes ":::80") ∷ [], err addr_in_use)
unfolding bind_tcp issue calls_for address decimal
busy_port = refl
