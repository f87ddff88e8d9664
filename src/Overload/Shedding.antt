-- ===== src/Overload/Shedding.antt =====
-- src/overload.rs: how long an overload has lasted.
use oxide_http.Prelude.{
  ℕ, suc, ◌-◌, ◌≤◌, max, Option, none, some, List, [], ◌∷◌, true, ◌≡◌, refl, ◌∙◌, ◌↔◌, arith,
}
use oxide_http.Overload.{Limiter, clear_saturation, mark_saturated, should_shed}

-- The refusals of one streak, at the given times.
pub refuse : List ℕ → Limiter → Limiter
refuse [] l = l
refuse (now ∷ times) l = refuse times (mark_saturated now l)

refuse-started :
    (times : List ℕ) (l : Limiter) (s : ℕ)
    → l.saturated_since_ms ≡ suc s
    → ((refuse times l).saturated_since_ms ≡ suc s) × ((refuse times l).shed_after ≡ l.shed_after)
unfolding refuse mark_saturated
refuse-started [] l s h = (h, refl)
refuse-started (now ∷ times) l s h =
    let (since, shed) = refuse-started times (mark_saturated now l) s (ground arith) in
    (since, shed ∙ ground arith)

first_mark :
    (l : Limiter) (first : ℕ)
    → (mark_saturated first (clear_saturation l)).saturated_since_ms ≡ suc (max first 1 - 1)
unfolding mark_saturated clear_saturation
first_mark l first = ground arith

same_threshold :
    (l : Limiter) (first : ℕ)
    → (mark_saturated first (clear_saturation l)).shed_after ≡ l.shed_after
unfolding mark_saturated clear_saturation
same_threshold l first = refl

age :
    (l : Limiter) (shed_after : Option ℕ) (s start now : ℕ)
    → l.saturated_since_ms ≡ suc s
    → l.shed_after ≡ shed_after
    → suc s ≡ start
    → (should_shed now l ≡ true)
      ↔ ((threshold : ℕ) × (shed_after ≡ some threshold) × (threshold ≤ now - start))
unfolding should_shed
age l none s start now h e same = (λ p. ground arith, λ p. cc (p.1))
age l (some d) s start now h e same =
    (λ p. (d, refl, ground arith), λ p. let hit : d ≡ p.0 = cc (p.1) in ground (arith, p.2, hit))

-- However many refusals a streak has, its age counts from the first one since a slot was free:
-- readiness is to drop exactly when the threshold, if there is one, has passed since then.
should_shed_iff :
    (l : Limiter) (first now : ℕ) (times : List ℕ)
    → (should_shed now (refuse (first ∷ times) (clear_saturation l)) ≡ true)
      ↔ ((threshold : ℕ) × (l.shed_after ≡ some threshold) × (threshold ≤ now - max first 1))
unfolding refuse
should_shed_iff l first now times =
    let start : Limiter = mark_saturated first (clear_saturation l) in
    let (since, shed) = refuse-started times start (max first 1 - 1) (first_mark l first) in
    age (refuse times start) l.shed_after (max first 1 - 1) (max first 1) now since
      (shed ∙ same_threshold l first) (omega arith)
