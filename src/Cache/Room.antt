-- ===== src/Cache/Room.antt =====
-- src/cache.rs, `maybe_store`: what making room for an entry leaves of the store.
use native.Mathlib.Nat.{mod-lt}
use oxide_http.Prelude.{
  zero, ◌%◌, get_elem?, ℕ, suc, ◌≤◌, ◌<◌, Text, text_eq_iff, some, List, [], ◌∷◌, true, not, ◌&&◌,
  Bool-cases, Option-cases, ◌≡◌, refl, ◌⊎◌, inl, inr, arith, ltb, leb, length, length-retain-le,
  retain, All, All-retain,
}
use oxide_http.Cache.{
  CacheConfig, Entry, Store, remove, contains_key, first_key, drop_one, make_room,
}
use oxide_http.Cache.Map.{Distinct, Distinct-retain, Distinct-remove, remove_shorter}

pub get_elem?-contained :
    (m : Store) (i : ℕ) {p : Text × Entry} → get_elem? m i ≡ some p → contains_key p.0 m ≡ true
unfolding contains_key
get_elem?-contained [] i e = cc
get_elem?-contained ((j, e) ∷ m) zero {p} h = ground (arith, text_eq_iff j p.0)
get_elem?-contained ((j, e) ∷ m) (suc i) {p} h = ground (arith, get_elem?-contained m i h)

pub get_elem?-within :
    {A : Type 0} (m : List A) (i : ℕ) → i < length m → (p : A) × (get_elem? m i ≡ some p)
get_elem?-within [] i h = elim h [ ]
get_elem?-within (p ∷ m) zero h = (p, refl)
get_elem?-within (p ∷ m) (suc i) h = get_elem?-within m i (omega arith)

pub drop_one_shorter : (slot : ℕ) (m : Store) → 0 < length m → length (drop_one slot m) < length m
unfolding drop_one
drop_one_shorter slot m h =
    let (p, found) = get_elem?-within m (slot % length m) (mod-lt slot h) in
    ground (arith, found, remove_shorter p.0 m (get_elem?-contained m (slot % length m) found))

pub length-remove-le : (k : Text) (m : Store) → length (remove k m) ≤ length m
unfolding remove
length-remove-le k m = length-retain-le _ m

-- The sweep leaves room for one more entry.
pub length-make_room :
    (config : CacheConfig) (slot t : ℕ) (k : Text) (m : Store)
    → 0 < config.max_entries
    → length m ≤ config.max_entries
    → length (remove k (make_room config slot t k m)) < config.max_entries
unfolding make_room
length-make_room config slot t k m pos h =
    let live : Store = retain (λ (p : Text × Entry). ltb t p.1.expires) m in
    ground (
      arith,
      remove_shorter k m,
      length-remove-le k m,
      length-remove-le k live,
      length-remove-le k (drop_one slot live),
      length-retain-le (λ (p : Text × Entry). ltb t p.1.expires) m,
      drop_one_shorter slot live,
    )

pub drop_one-cases :
    (slot : ℕ) (m : Store) → (drop_one slot m ≡ m) ⊎ ((k : Text) × (drop_one slot m ≡ remove k m))
unfolding drop_one
drop_one-cases slot m = elim (Option-cases (first_key slot m)) [
  | inl missing ↦ inl (ground arith)
  | inr (j, found) ↦ inr (j, ground arith)
]

module _ (P : Text × Entry → Type 0) (k : Text) (config : CacheConfig) (slot t : ℕ) where
  All-drop_one : (m : Store) → All P m → All P (drop_one slot m)
  All-drop_one m h = elim (drop_one-cases slot m) [
    | inl same ↦ rw same h
    | inr (j, gone) ↦ rw gone (unfold remove in All-retain P _ m h)
  ]

  pub All-make_room : (m : Store) → All P m → All P (make_room config slot t k m)
  unfolding make_room
  All-make_room m h =
      let live : Store = retain (λ (p : Text × Entry). ltb t p.1.expires) m in
      let kept : All P live = All-retain P _ m h in
      elim (Bool-cases (leb config.max_entries (length m) && not (contains_key k m))) [
        | inr plenty ↦ rw plenty h
        | inl full ↦ elim (Bool-cases (leb config.max_entries (length live))) [
          | inl crowded ↦ rw (full, crowded) (All-drop_one live kept)
          | inr roomy ↦ rw (full, roomy) kept
        ]
      ]

Distinct-drop_one : (slot : ℕ) (m : Store) → Distinct m → Distinct (drop_one slot m)
Distinct-drop_one slot m h = elim (drop_one-cases slot m) [
  | inl same ↦ rw same h
  | inr (j, gone) ↦ rw gone (Distinct-remove j m h)
]

pub Distinct-make_room :
    (config : CacheConfig) (slot t : ℕ) (k : Text) (m : Store)
    → Distinct m
    → Distinct (make_room config slot t k m)
unfolding make_room
Distinct-make_room config slot t k m h =
    let live : Store = retain (λ (p : Text × Entry). ltb t p.1.expires) m in
    let kept : Distinct live = Distinct-retain _ m h in
    elim (Bool-cases (leb config.max_entries (length m) && not (contains_key k m))) [
      | inr plenty ↦ rw plenty h
      | inl full ↦ elim (Bool-cases (leb config.max_entries (length live))) [
        | inl crowded ↦ rw (full, crowded) (Distinct-drop_one slot live kept)
        | inr roomy ↦ rw (full, roomy) kept
      ]
    ]
