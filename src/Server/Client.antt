-- ===== src/Server/Client.antt =====
-- src/server.rs, `client_ip_country`: the addresses that a handler sees.
use oxide_http.Prelude.{
  Text, trim, split, List, [], ◌∷◌, map, false, not, is_empty, retain, ◌≡◌, refl, Bool-cases,
  Option-cases, inl, inr, All,
}
use oxide_http.Bridge.Types.{KvPair}
use oxide_http.Server.{ClientInfo, first_present, client_ip_country, first_or, or_peer}

abbrev pub NonEmpty : Text → Type 0
NonEmpty s = is_empty s ≡ false

retain-NonEmpty : (xs : List Text) → All NonEmpty (retain (λ s. not (is_empty s)) xs)
retain-NonEmpty [] = tt
retain-NonEmpty (x ∷ xs) = elim (Bool-cases (is_empty x)) [
  | inl blank ↦ rw blank (retain-NonEmpty xs)
  | inr full ↦ rw full (full, retain-NonEmpty xs)
]

heads :
    (parts : List Text) (peer : Text)
    → (rest : List Text) × (or_peer parts peer ≡ first_or parts peer ∷ rest)
heads [] peer = ([], refl)
heads (x ∷ xs) peer = (xs, refl)

or_peer-NonEmpty :
    (parts : List Text) (peer : Text)
    → All NonEmpty parts
    → NonEmpty peer
    → All NonEmpty (or_peer parts peer)
or_peer-NonEmpty [] peer h p = (p, tt)
or_peer-NonEmpty (x ∷ xs) peer h p = h

module _ (headers : List KvPair) (ip_headers country_headers : List Text) (peer_ip : Text) where
  abbrev info : ClientInfo
  info = client_ip_country headers ip_headers country_headers peer_ip

  -- Whatever the headers hold: a handler's `ip` is the first of `ips`, and where the peer's address
  -- is not empty, no address in `ips` is.
  pub client_ip_country_first :
      NonEmpty peer_ip
      → ((rest : List Text) × ((client_ip_country headers ip_headers country_headers peer_ip).ips
            ≡ (client_ip_country headers ip_headers country_headers peer_ip).ip ∷ rest))
        × All NonEmpty (client_ip_country headers ip_headers country_headers peer_ip).ips
  unfolding client_ip_country
  client_ip_country_first p = elim (Option-cases (first_present headers ip_headers)) [
    | inl missing ↦ rw (missing, client_ip_country) (([], refl), (p, tt))
    | inr (val, found) ↦
        let parts : List Text = retain (λ s. not (is_empty s)) (map trim (split b',' val)) in
        rw (found, client_ip_country)
          (
            heads parts peer_ip,
            or_peer-NonEmpty parts peer_ip (retain-NonEmpty (map trim (split b',' val))) p,
          )
  ]
