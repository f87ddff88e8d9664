-- ===== src/Accept/Connection.antt =====
-- src/server.rs, `serve_conn` and `drive`: which connections are served and for whom, and how a
-- connection ends.
use oxide_http.Prelude.{
  Text, Option, none, some, List, [], ◌∷◌, ◌++◌, Bool, true, false, unwrap_or, ◌||◌, any, ◌≡◌, refl,
  sym, ◌↔◌,
}
use oxide_http.ProxyProtocol.{PrefixedIo, Outcome, done, rejected, out_of_fuel, ParsedAddr}
use oxide_http.Accept.{
  Served, dropped, http1, auto, peer_of, protocol, serve_conn, Wake, conn_done, idle, closes, shed,
  ended, dropped_idle, drive,
}

-- A connection that is served for a peer.
abbrev pub ServedFor : Text → Served → Type 0
ServedFor ip dropped = ⊥
ServedFor ip (http1 peer) = peer ≡ ip
ServedFor ip (auto peer) = peer ≡ ip

-- The peer of a connection: the socket's, or behind a proxy the one that the prefix names, or the
-- socket's where it names none.
abbrev pub PeerIs : Bool → Text → Option (Outcome (PrefixedIo × ParsedAddr)) → Text → Type 0
PeerIs false peer prefix ip = ip ≡ peer
PeerIs true peer none ip = ⊥
PeerIs true peer (some rejected) ip = ⊥
PeerIs true peer (some out_of_fuel) ip = ⊥
PeerIs true peer (some (done (io, addr))) ip = ip ≡ unwrap_or addr peer

-- TLS, where it is asked for, came up in time.
abbrev pub Shaken : (tls handshake : Bool) → Type 0
Shaken false handshake = Unit
Shaken true handshake = handshake ≡ true

protocol-ServedFor :
    (tls h2c handshake : Bool) (peer ip : Text)
    → ServedFor ip (protocol tls h2c handshake peer) ↔ (Shaken tls handshake × (peer ≡ ip))
unfolding protocol
protocol-ServedFor true h2c true peer ip = (λ e. (refl, e), λ h. h.1)
protocol-ServedFor true h2c false peer ip = (λ h. elim h [ ], λ h. cc (h.0))
protocol-ServedFor false true handshake peer ip = (λ e. (tt, e), λ h. h.1)
protocol-ServedFor false false handshake peer ip = (λ e. (tt, e), λ h. h.1)

-- A connection is served, and for a peer, exactly when its TLS came up, if TLS is on, and the peer is
-- the socket's, or, where the PROXY prefix is expected, a whole prefix came in time and names the
-- peer or none; a connection without a valid prefix is dropped.
pub serve_conn_iff :
    (proxy_protocol tls h2c : Bool) (peer : Text)
    (prefix : Option (Outcome (PrefixedIo × ParsedAddr))) (handshake : Bool) (ip : Text)
    → ServedFor ip (serve_conn proxy_protocol tls h2c peer prefix handshake)
      ↔ (Shaken tls handshake × PeerIs proxy_protocol peer prefix ip)
unfolding serve_conn peer_of
serve_conn_iff false tls h2c peer prefix handshake ip =
    let (to, from) = protocol-ServedFor tls h2c handshake peer ip in
    (λ s. ((to s).0, sym (to s).1), λ h. from (h.0, sym h.1))
serve_conn_iff true tls h2c peer none handshake ip = (λ h. elim h [ ], λ h. elim h.1 [ ])
serve_conn_iff true tls h2c peer (some rejected) handshake ip = (λ h. elim h [ ], λ h. elim h.1 [ ])
serve_conn_iff true tls h2c peer (some out_of_fuel) handshake ip =
    (λ h. elim h [ ], λ h. elim h.1 [ ])
serve_conn_iff true tls h2c peer (some (done (io, addr))) handshake ip =
    let (to, from) = protocol-ServedFor tls h2c handshake (unwrap_or addr peer) ip in
    (λ s. ((to s).0, sym (to s).1), λ h. from (h.0, sym h.1))

-- An order to close: of the server, or of a limiter that sheds.
abbrev pub orders : Wake → Bool
orders conn_done = false
orders idle = false
orders closes = true
orders shed = true

abbrev pub Orders : List Wake → Type 0
Orders [] = Unit
Orders (w ∷ ws) = (orders w ≡ true) × Orders ws

or_true : (b : Bool) → (b || true) ≡ true
or_true true = refl
or_true false = refl

drive-orders :
    (graceful : Bool) (ws rest : List Wake)
    → Orders ws
    → drive graceful (ws ++ rest) ≡ drive (graceful || any orders ws) rest
unfolding drive
drive-orders true [] rest o = refl
drive-orders false [] rest o = refl
drive-orders true (conn_done ∷ ws) rest o = cc (o.0)
drive-orders false (conn_done ∷ ws) rest o = cc (o.0)
drive-orders true (idle ∷ ws) rest o = cc (o.0)
drive-orders false (idle ∷ ws) rest o = cc (o.0)
drive-orders true (closes ∷ ws) rest o = drive-orders true ws rest o.1
drive-orders false (closes ∷ ws) rest o = drive-orders true ws rest o.1
drive-orders true (shed ∷ ws) rest o = drive-orders true ws rest o.1
drive-orders false (shed ∷ ws) rest o = drive-orders true ws rest o.1

-- Orders to close never cut a connection: after any number of them it ends as it would have, when it
-- is done or idle, and it has been asked to close exactly if there was an order.
pub drive_graceful :
    (ws rest : List Wake)
    → Orders ws
    → (drive false (ws ++ conn_done ∷ rest) ≡ ended (any orders ws))
      × (drive false (ws ++ idle ∷ rest) ≡ dropped_idle (any orders ws))
unfolding drive
drive_graceful ws rest o =
    (drive-orders false ws (conn_done ∷ rest) o, drive-orders false ws (idle ∷ rest) o)
