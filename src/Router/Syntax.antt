-- ===== src/Router/Syntax.antt =====
-- src/router.rs, `to_matchit`: a path without parameters is its own pattern.
use oxide_http.Prelude.{
  ℕ, Text, split, split_from, List, [], ◌∷◌, ◌++◌, append_assoc, true, false, any, ◌==◌, ◌≡◌, refl,
  ◌∙◌, ap, arith, Bool-cases, inl, inr, All-append, Free,
}
use oxide_http.Router.{translate_segment, segments, after_first, to_matchit}

any-Free : (d : ℕ) (s : Text) → Free d s → any (λ c. c == d) s ≡ false
any-Free d [] h = refl
any-Free d (c ∷ s) h = ground (arith, any-Free d s h.1, h.0)

translate_segment-plain : (seg : Text) → Free b':' seg → Free b'*' seg → translate_segment seg ≡ seg
unfolding translate_segment
translate_segment-plain [] h k = refl
translate_segment-plain (c ∷ seg) h k = ground (arith, any-Free b':' (c ∷ seg) h, k.0)

-- A list of segments that `split` makes.
split-cons : (d : ℕ) (cur s : Text) → (x : Text) × (xs : List Text) × (split_from d cur s ≡ x ∷ xs)
unfolding split_from
split-cons d cur [] = (cur, [], refl)
split-cons d cur (c ∷ s) = elim (Bool-cases (c == d)) [
  | inl cut ↦ (cur, split_from d [] s, rw cut refl)
  | inr on ↦ let (x, xs, e) = split-cons d (cur ++ c ∷ []) s in (x, xs, rw on e)
]

segments-after_first :
    (segs : List Text) (x : Text) (xs : List Text)
    → segs ≡ x ∷ xs
    → segments segs ≡ b'/' ∷ after_first segs
unfolding segments after_first
segments-after_first segs x xs e = rw e refl

split_from-here :
    (d : ℕ) (cur : Text) (c : ℕ) (s : Text)
    → (c == d) ≡ true
    → split_from d cur (c ∷ s) ≡ cur ∷ split_from d [] s
unfolding split_from
split_from-here d cur c s e = rw e refl

split_from-on :
    (d : ℕ) (cur : Text) (c : ℕ) (s : Text)
    → (c == d) ≡ false
    → split_from d cur (c ∷ s) ≡ split_from d (cur ++ c ∷ []) s
unfolding split_from
split_from-on d cur c s e = rw e refl

after_first-split :
    (cur s : Text)
    → Free b':' cur
    → Free b'*' cur
    → Free b':' s
    → Free b'*' s
    → after_first (split_from b'/' cur s) ≡ cur ++ s
after_first-split cur [] h k hs ks =
    unfold split_from after_first segments in
    ap (λ (t : Text). t ++ []) (translate_segment-plain cur h k)
after_first-split cur (c ∷ s) h k hs ks =
    let rest = after_first-split [] s tt tt hs.1 ks.1 in
    let more =
      after_first-split (cur ++ c ∷ []) s (All-append (λ x. _) cur (c ∷ []) h (hs.0, tt))
        (All-append (λ x. _) cur (c ∷ []) k (ks.0, tt)) hs.1 ks.1 in
    elim (Bool-cases (c == b'/')) [
      | inl cut ↦
          let (x, xs, e) = split-cons b'/' [] s in
          let slash : c ≡ b'/' = ground arith in
          ap after_first (split_from-here b'/' cur c s cut)
          ∙ opened cur (split_from b'/' [] s)
          ∙ cc (
            translate_segment-plain cur h k,
            segments-after_first (split_from b'/' [] s) x xs e,
            rest,
            slash,
          )
      | inr on ↦ ap after_first (split_from-on b'/' cur c s on) ∙ more ∙ append_assoc cur (c ∷ []) s
    ]
  where
    opened :
        (seg : Text) (segs : List Text)
        → after_first (seg ∷ segs) ≡ translate_segment seg ++ segments segs
    opened seg segs = unfold after_first in refl

-- A path without `:` and `*` is its own pattern: slashes, also at its ends or doubled, stay.
pub to_matchit-plain : (path : Text) → Free b':' path → Free b'*' path → to_matchit path ≡ path
unfolding to_matchit split
to_matchit-plain path h k = after_first-split [] path tt tt h k
