-- ===== src/Cache/Map.antt =====
-- src/cache.rs: the laws of the map behind a leaf's cache.
use oxide_http.Prelude.{
  keep_if, suc, All-retain, ◌<◌, Text, none, some, [], ◌∷◌, Bool, true, false, not, Bool-cases, ◌≡◌,
  refl, inl, inr, arith, if◌then◌else◌, length, retain, length-retain-le, All, text_eq, text_eq_iff,
  text_eq_refl,
}
use oxide_http.Cache.{Entry, Store, get, remove, contains_key, insert}

pub get-remove :
    (k j : Text) (m : Store) → get j (remove k m) ≡ (if text_eq k j then none else get j m)
unfolding get remove
get-remove k j [] = ground arith
get-remove k j ((i, e) ∷ m) =
    ground (arith, text_eq_iff i k, text_eq_iff i j, text_eq_iff k j, get-remove k j m)

pub get-insert :
    (k j : Text) (e : Entry) (m : Store)
    → get j (insert k e m) ≡ (if text_eq k j then some e else get j m)
unfolding get insert
get-insert k j e m = ground (arith, get-remove k j m)

pub get-insert_self : (k : Text) (e : Entry) (m : Store) → get k (insert k e m) ≡ some e
get-insert_self k e m = ground (arith, get-insert k k e m, text_eq_refl k)

pub remove_shorter :
    (k : Text) (m : Store) → contains_key k m ≡ true → length (remove k m) < length m
unfolding remove contains_key
remove_shorter k [] h = cc
remove_shorter k ((j, e) ∷ m) h =
    ground
      (arith, remove_shorter k m, length-retain-le (λ (p : Text × Entry). not (text_eq p.0 k)) m)

-- No key stands twice.
abbrev pub Distinct : Store → Type 0
Distinct [] = Unit
Distinct ((k, e) ∷ m) = (contains_key k m ≡ false) × Distinct m

contains_key-retain :
    (k : Text) (p : Text × Entry → Bool) (m : Store)
    → contains_key k m ≡ false
    → contains_key k (retain p m) ≡ false
unfolding contains_key
contains_key-retain k p [] h = refl
contains_key-retain k p ((j, e) ∷ m) h = ground (arith, contains_key-retain k p m)

pub Distinct-retain : (p : Text × Entry → Bool) (m : Store) → Distinct m → Distinct (retain p m)
Distinct-retain p [] h = tt
Distinct-retain p ((k, e) ∷ m) h = elim (Bool-cases (p (k, e))) [
  | inl kept ↦ rw kept (contains_key-retain k p m h.0, Distinct-retain p m h.1)
  | inr gone ↦ rw gone (Distinct-retain p m h.1)
]

contains_key-remove : (k : Text) (m : Store) → contains_key k (remove k m) ≡ false
unfolding contains_key remove
contains_key-remove k [] = refl
contains_key-remove k ((j, e) ∷ m) = ground (arith, contains_key-remove k m)

pub Distinct-remove : (k : Text) (m : Store) → Distinct m → Distinct (remove k m)
unfolding remove
Distinct-remove k m h = Distinct-retain _ m h

pub Distinct-insert : (k : Text) (e : Entry) (m : Store) → Distinct m → Distinct (insert k e m)
unfolding insert
Distinct-insert k e m h = (contains_key-remove k m, Distinct-remove k m h)

pub get_of_absent : (k : Text) (m : Store) → contains_key k m ≡ false → get k m ≡ none
unfolding get contains_key
get_of_absent k [] h = refl
get_of_absent k ((j, e) ∷ m) h = ground (arith, get_of_absent k m)

-- Keeping the entries that pass a test.
pub get-retain :
    (f : Entry → Bool) (j : Text) (m : Store)
    → Distinct m
    → get j (retain (λ (p : Text × Entry). f p.1) m) ≡ keep_if f (get j m)
unfolding get
get-retain f j [] h = refl
get-retain f j ((k, e) ∷ m) h =
    ground (arith, get-retain f j m, text_eq_iff k j, get_of_absent k m h.0, get_of_absent j m)

-- What an entry of the map satisfies, what is found satisfies.
pub get-All {κ} :
    (P : Text × Entry → Type κ) (k : Text) (m : Store) {e : Entry}
    → All P m
    → get k m ≡ some e
    → (j : Text) × P (j, e)
unfolding get
get-All P k [] h g = cc
get-All P k ((j, d) ∷ m) {e} h g = elim (Bool-cases (text_eq j k)) [
  | inl here ↦ (j, rw (← found here) h.0)
  | inr later ↦ get-All P k m h.1 (ground arith)
]
  where
    found : text_eq j k ≡ true → d ≡ e
    found here = ground arith

pub length-insert :
    (k : Text) (e : Entry) (m : Store) → length (insert k e m) ≡ suc (length (remove k m))
unfolding insert
length-insert k e m = refl

pub All-insert :
    (P : Text × Entry → Type 0) (k : Text) (e : Entry) (m : Store)
    → P (k, e)
    → All P m
    → All P (insert k e m)
unfolding insert remove
All-insert P k e m p h = (p, All-retain P _ m h)
