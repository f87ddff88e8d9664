-- ===== src/Listener.antt =====
-- src/listener.rs: binding a TCP or a Unix socket. The kernel's answers come from outside: what a call
-- of the system fails with, none where it succeeds. The directory tree maps a path to what stands
-- there, a symbolic link with its target; directories on the way to a path are not links.
use oxide_http.Prelude.{
  ℕ, zero, suc, ℤ, Text, codes, text_eq, decimal, Option, none, some, List, [], ◌∷◌, ◌++◌, Bool,
  true, false, if◌then◌else◌, Result, ok, err,
}
use oxide_http.Prelude.Results.{◌>>=◌, ◌>>◌}
use oxide_http.Config.Tune.{SocketOptions}
pub mod Unix
pub mod Tcp
pub mod Tests

pub data Kind : Type 0 where
  socket : Kind
  no_socket : Kind
  link : (target : Text) → Kind

abbrev pub Files : Type 0
Files = Text → Option Kind

unfoldable pub put : Text → Option Kind → Files → Files
unfolding text_eq
put path kind files q = if text_eq q path then kind else files q

-- What `metadata` finds, past the links; the system follows 40 of them at most.
pub data Meta : Type 0 where
  found : (is_socket : Bool) → Meta
  not_found : Meta
  too_many_links : Meta

pub follow : Files → ℕ → Option Kind → Meta
follow files hops none = not_found
follow files hops (some socket) = found true
follow files hops (some no_socket) = found false
follow files zero (some (link target)) = too_many_links
follow files (suc hops) (some (link target)) = follow files hops (files target)

unfoldable pub metadata : Files → Text → Meta
unfolding follow
metadata files path = follow files 40 (files path)

abbrev pub addr_in_use : Text
addr_in_use = codes "Address already in use (os error 98)"

pub record System : Type 1 where
  pub metadata_fails : Text → Option Text
  pub remove_fails : Text → Option Text
  pub bind_fails : Text → Option Text
  pub nonblocking_fails : Option Text
  pub Addr : Type 0
  pub parse_addr : Text → Option Addr
  pub to_socket_addrs : Text → ℕ → Result (List Addr)
  pub is_ipv6 : Addr → Bool

abbrev done_unless : Option Text → Result (Unit {0})
done_unless none = ok tt
done_unless (some msg) = err msg

module _ (sys : System) where
  -- `UnixListener::bind` makes the socket's file, where nothing stands.
  bind_at : Text → Option Kind → Files → Result (Unit {0}) × Files
  unfolding put
  bind_at path (some kind) files = (err addr_in_use, files)
  bind_at path none files = elim (sys.bind_fails path) [
    | some msg ↦ (err msg, files)
    | none ↦ (done_unless sys.nonblocking_fails, put path (some socket) files)
  ]

  clear_and_bind : Text → Files → Result (Unit {0}) × Files
  unfolding put bind_at
  clear_and_bind path files = elim (sys.remove_fails path) [
    | some msg ↦ (err msg, files)
    | none ↦ bind_at path none (put path none files)
  ]

  -- A link to a socket counts as one: it is the link that is removed.
  bind_over : Text → Meta → Files → Result (Unit {0}) × Files
  unfolding bind_at clear_and_bind
  bind_over path (found false) files =
      (err (path ++ codes ": file exists and is not a socket"), files)
  bind_over path (found true) files = clear_and_bind path files
  bind_over path not_found files = bind_at path (files path) files
  bind_over path too_many_links files =
      (err (codes "Too many levels of symbolic links (os error 40)"), files)

  unfoldable pub bind_unix : Text → Files → Result (Unit {0}) × Files
  unfolding bind_over metadata
  bind_unix path files = elim (sys.metadata_fails path) [
    | some msg ↦ (err msg, files)
    | none ↦ bind_over path (metadata files path) files
  ]

  first_of : List sys.Addr → Result sys.Addr
  first_of [] = err (codes "address does not resolve")
  first_of (a ∷ more) = ok a

  -- A literal address, or the first that the name resolves to.
  unfoldable pub address : Text → ℕ → Result sys.Addr
  unfolding decimal first_of
  address host port = elim (sys.parse_addr (host ++ (codes ":" ++ decimal port))) [
    | some a ↦ ok a
    | none ↦ sys.to_socket_addrs host port >>= first_of
  ]

  pub data Call : Type 0 where
    new_socket : (ipv6 : Bool) → Call
    reuse_address : Call
    reuse_port : Call
    bind : sys.Addr → Call
    listen : (backlog : ℤ) → Call
    nonblocking : Call

  -- The calls that were made, up to the first that fails.
  unfoldable pub issue : (Call → Option Text) → List Call → List Call × Result (Unit {0})
  issue fails [] = ([], ok tt)
  issue fails (c ∷ calls) =
      let (rest, end) = issue fails calls in
      elim (fails c) [ some msg ↦ (c ∷ [], err msg) | none ↦ (c ∷ rest, end) ]

  unfoldable pub calls_for : SocketOptions → sys.Addr → List Call
  calls_for opts addr =
      let after = bind addr ∷ listen opts.backlog ∷ nonblocking ∷ [] in
      new_socket (sys.is_ipv6 addr)
      ∷ reuse_address
      ∷ (if opts.reuse_port then reuse_port ∷ after else after)

  unfoldable pub bind_tcp :
      (Call → Option Text) → Text → ℕ → SocketOptions → List Call × Result (Unit {0})
  unfolding address issue calls_for
  bind_tcp fails host port opts = elim (address host port) [
    | err msg ↦ ([], err msg)
    | ok addr ↦ issue fails (calls_for opts addr)
  ]
