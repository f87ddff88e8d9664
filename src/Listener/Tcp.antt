-- ===== src/Listener/Tcp.antt =====
-- src/listener.rs, `bind_tcp`: the calls that make a listener.
use oxide_http.Prelude.{
  ℕ, Text, Option, Option-cases, ok, Result-cases, List, [], ◌∷◌, ◌≡◌, refl, ap, inl, inr,
}
use oxide_http.Config.Tune.{SocketOptions}
use oxide_http.Listener.{System, Call, address, issue, calls_for, bind_tcp}

module _ (sys : System) (fails : Call sys → Option Text) where
  issue-ok :
      (calls : List (Call sys))
      → (issue sys fails calls).1 ≡ ok tt
      → (issue sys fails calls).0 ≡ calls
  unfolding issue
  issue-ok [] = λ e. refl
  issue-ok (c ∷ calls) = elim (Option-cases (fails c)) [
    | inr (msg, f) ↦ rw (f, issue) (λ e. cc e)
    | inl works ↦ rw (works, issue) (λ e. ap (λ cs. c ∷ cs) (issue-ok calls e))
  ]

  -- A listener has its address, whole: every call was made for it.
  bind_tcp-ok :
      (host : Text) (port : ℕ) (opts : SocketOptions)
      → (bind_tcp sys fails host port opts).1 ≡ ok tt
      → (addr : sys.Addr) × (address sys host port ≡ ok addr)
        × ((bind_tcp sys fails host port opts).0 ≡ calls_for sys opts addr)
  unfolding bind_tcp
  bind_tcp-ok host port opts = elim (Result-cases (address sys host port)) [
    | inr (msg, f) ↦ rw (f, bind_tcp) (λ e. cc e)
    | inl (addr, found) ↦
        rw (found, bind_tcp) (λ e. (addr, refl, issue-ok (calls_for sys opts addr) e))
  ]
