-- ===== src/Config/Limits.antt =====
-- src/lib.rs, `timeout_ms`, `delay_ms` and the tuning of `listen`: which times are accepted, and
-- what they become.
use oxide_http.Prelude.{
  ℕ, zero, suc, ℤ, pos, negsuc, as_u64, Text, codes, Option, none, some, unwrap_or, ◌≡◌, refl, sym,
  ◌∙◌, ap, subst, ◌↔◌, arith, ok,
}
use oxide_http.Prelude.Results.{step_ok}
use oxide_http.Config.{ListenOptions, timeout_of, timeout_ms, delay_of, delay_ms}
use oxide_http.Config.Tune.{Tls, Tuning, tls_acceptor, tuned, tune}

-- A protective timeout: 0 is none.
abbrev pub nonzero : ℕ → Option ℕ
nonzero zero = none
nonzero (suc n) = some (suc n)

-- The value of an option, or the default for want of one, is not negative and is what is used.
abbrev pub ReadAs : Option ℤ → ℤ → Option ℕ → Type 0
ReadAs v default_value out = (n : ℕ) × (unwrap_or v default_value ≡ pos n) × (out ≡ nonzero n)

timeout_of-pos : (name : Text) (n : ℕ) → timeout_of name (pos n) ≡ ok (nonzero n)
unfolding timeout_of as_u64
timeout_of-pos name zero = refl
timeout_of-pos name (suc n) = ground arith

timeout_of_iff :
    (name : Text) (z : ℤ) (out : Option ℕ)
    → (timeout_of name z ≡ ok out) ↔ ((n : ℕ) × (z ≡ pos n) × (out ≡ nonzero n))
timeout_of_iff name (pos n) out = (
  λ e. (n, refl, cc (e, timeout_of-pos name n)),
  λ h.
      let (m, same, is) = h in
      let e : n ≡ m = cc (same) in timeout_of-pos name n ∙ ap ok (ap nonzero e ∙ sym is),
)
timeout_of_iff name (negsuc n) out = (λ e. unfold timeout_of in cc (e), λ h. cc (h.1))

-- A timeout is accepted exactly when the option, or the default for want of it, is not negative;
-- 0 switches the protection off, and any other value is the time that is used.
pub timeout_ms_iff :
    (name : Text) (v : Option ℤ) (default_value : ℤ) (out : Option ℕ)
    → (timeout_ms name v default_value ≡ ok out) ↔ ReadAs v default_value out
unfolding timeout_ms
timeout_ms_iff name v default_value out = timeout_of_iff name (unwrap_or v default_value) out

delay_of_sound : (name : Text) (z : ℤ) (out : ℕ) → delay_of name z ≡ ok out → z ≡ pos out
unfolding delay_of as_u64
delay_of_sound name (pos n) out e = ap pos (cc (e))
delay_of_sound name (negsuc n) out e = cc (e)

pub delay_ms_sound :
    (name : Text) (v : Option ℤ) (default_value : ℤ) (out : ℕ)
    → delay_ms name v default_value ≡ ok out
    → unwrap_or v default_value ≡ pos out
unfolding delay_ms
delay_ms_sound name v default_value out e = delay_of_sound name (unwrap_or v default_value) out e

-- Every time of the tuning is that of its option or default, none of them negative.
pub record IsTimed (tls : Tls) (o : ListenOptions) (t : Tuning tls) : Type 0 where
  pub header_read : ReadAs o.header_read_timeout (pos 30000) t.header_read_timeout
  pub body_read : ReadAs o.body_read_timeout (pos 30000) t.body_read_timeout
  pub idle : ReadAs o.idle_timeout (pos 75000) t.idle_timeout
  pub handshake : ReadAs o.handshake_timeout (pos 10000) t.handshake_timeout
  pub shutdown : unwrap_or o.shutdown_timeout (pos 10000) ≡ pos t.shutdown_timeout
  pub probes : (t.admin_port ≡ o.admin_port)

module _ (tls : Tls) where
  -- Whenever `listen` accepts the options for connections, the four timeouts and the deadline of the
  -- shutdown are those of their options, or the documented defaults, and none of them was negative.
  pub tune-IsTimed : (o : ListenOptions) (t : Tuning tls) → tune tls o ≡ ok t → IsTimed tls o t
  unfolding tune
  tune-IsTimed o t e =
      let (acceptor, e0, r0) = step_ok (tls_acceptor tls o.tls) _ e in
      let (shutdown, e1, r1) =
        step_ok (delay_ms (codes "shutdownTimeout") o.shutdown_timeout (pos 10000)) _ r0 in
      let (header, e2, r2) =
        step_ok (timeout_ms (codes "headerReadTimeout") o.header_read_timeout (pos 30000)) _ r1 in
      let (body, e3, r3) =
        step_ok (timeout_ms (codes "bodyReadTimeout") o.body_read_timeout (pos 30000)) _ r2 in
      let (idle, e4, r4) =
        step_ok (timeout_ms (codes "idleTimeout") o.idle_timeout (pos 75000)) _ r3 in
      let (hand, e5, r5) =
        step_ok (timeout_ms (codes "handshakeTimeout") o.handshake_timeout (pos 10000))
          (λ h. ok (tuned tls o acceptor shutdown header body idle h)) r4 in
      let same : tuned tls o acceptor shutdown header body idle hand ≡ t = cc (r5) in
      subst (IsTimed tls o) same (
        unfold tuned in
        record {
          header_read =
              (timeout_ms_iff (codes "headerReadTimeout") o.header_read_timeout (pos 30000)
                  header).0
                e2;
          body_read =
              (timeout_ms_iff (codes "bodyReadTimeout") o.body_read_timeout (pos 30000) body).0 e3;
          idle = (timeout_ms_iff (codes "idleTimeout") o.idle_timeout (pos 75000) idle).0 e4;
          handshake =
              (timeout_ms_iff (codes "handshakeTimeout") o.handshake_timeout (pos 10000) hand).0 e5;
          shutdown =
              delay_ms_sound (codes "shutdownTimeout") o.shutdown_timeout (pos 10000) shutdown e1;
          probes = refl;
        })
