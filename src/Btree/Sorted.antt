-- ===== src/Btree/Sorted.antt =====
-- `findKey` and `childFor` on sorted keys: where a key stands, and where it would go.
use sapedb.Base.{
  ℕ, zero, suc, ◌≤◌, ◌<◌, ◌≡◌, refl, ap, true, false, not, inl, inr, List, [], ◌∷◌, map, length,
  All, if◌then◌else◌, arith, Bool-cases,
}
use sapedb.Base.Lex.{key_lt, key_lt_trans}
use sapedb.Base.Search.{search_lem}
use sapedb.Btree.Node.{Kv, key_at, find_key, separator_at, child_for}

-- Keys in strictly ascending order.
abbrev pub IsSorted : List (List ℕ) → Type 0
IsSorted [] = Unit
IsSorted (k ∷ ks) = All (λ j. key_lt k j ≡ true) ks × IsSorted ks

abbrev pub keys_of : List Kv → List (List ℕ)
keys_of = map (λ e. e.key)

-- How many keys at the front are below `key`.
abbrev pub rank : List (List ℕ) → List ℕ → ℕ
rank [] key = 0
rank (k ∷ ks) key = if key_lt k key then suc (rank ks key) else 0

-- How many keys at the front are at or below `key`.
abbrev pub rank_through : List (List ℕ) → List ℕ → ℕ
rank_through [] key = 0
rank_through (k ∷ ks) key = if key_lt key k then 0 else suc (rank_through ks key)

pub rank-le : (ks : List (List ℕ)) (key : List ℕ) → rank ks key ≤ length ks
rank-le [] key = omega arith
rank-le (k ∷ ks) key = ground (arith, rank-le ks key)

pub rank_through-le : (ks : List (List ℕ)) (key : List ℕ) → rank_through ks key ≤ length ks
rank_through-le [] key = omega arith
rank_through-le (k ∷ ks) key = ground (arith, rank_through-le ks key)

below_rank :
    (ks : List (List ℕ)) (key : List ℕ) (i : ℕ)
    → i < rank ks key
    → not (key_lt (separator_at ks i) key) ≡ false
unfolding separator_at
below_rank [] key i h = absurd (omega arith)
below_rank (k ∷ ks) key zero h = ground arith
below_rank (k ∷ ks) key (suc i) h = ground (arith, below_rank ks key i)

-- Above a key that is not below `key` no key is.
not_below :
    (ks : List (List ℕ)) (k key : List ℕ) (i : ℕ)
    → All (λ j. key_lt k j ≡ true) ks
    → key_lt k key ≡ false
    → i < length ks
    → key_lt (separator_at ks i) key ≡ false
unfolding separator_at
not_below [] k key i a h l = absurd (omega arith)
not_below (j ∷ ks) k key zero a h l = elim (Bool-cases (key_lt j key)) [
  | inl p ↦ cc (key_lt_trans k j key a.0 p)
  | inr p ↦ p
]
not_below (j ∷ ks) k key (suc i) a h l = not_below ks k key i a.1 h (omega arith)

above_rank :
    (ks : List (List ℕ)) (key : List ℕ) (i : ℕ)
    → IsSorted ks
    → rank ks key ≤ i
    → i < length ks
    → not (key_lt (separator_at ks i) key) ≡ true
unfolding separator_at
above_rank [] key i s h l = absurd (omega arith)
above_rank (k ∷ ks) key zero s h l = ground arith
above_rank (k ∷ ks) key (suc i) s h l = elim (Bool-cases (key_lt k key)) [
  | inl p ↦ above_rank ks key i s.1 (ground arith) (omega arith)
  | inr p ↦ ap not (not_below ks k key i s.0 p (omega arith))
]

key_at-separator_at : (es : List Kv) (i : ℕ) → key_at es i ≡ separator_at (keys_of es) i
unfolding key_at separator_at
key_at-separator_at [] i = refl
key_at-separator_at (e ∷ es) zero = refl
key_at-separator_at (e ∷ es) (suc i) = key_at-separator_at es i

pub length-keys_of : (es : List Kv) → length (keys_of es) ≡ length es
length-keys_of [] = refl
length-keys_of (e ∷ es) = ap suc (length-keys_of es)

-- The binary search of `findKey` stops behind the keys below the one it looks for.
pub find_key-rank :
    (es : List Kv) (key : List ℕ)
    → IsSorted (keys_of es)
    → (find_key es key).0 ≡ rank (keys_of es) key
unfolding find_key
find_key-rank es key s =
    search_lem _ (length es) (rank (keys_of es) key)
      (λ i l. rw key_at-separator_at (below_rank (keys_of es) key i l))
      (λ i l u.
        rw key_at-separator_at
          (above_rank (keys_of es) key i s l (omega (arith, length-keys_of es))))
      (omega (arith, rank-le (keys_of es) key, length-keys_of es))

below_through :
    (ks : List (List ℕ)) (key : List ℕ) (i : ℕ)
    → i < rank_through ks key
    → key_lt key (separator_at ks i) ≡ false
unfolding separator_at
below_through [] key i h = absurd (omega arith)
below_through (k ∷ ks) key zero h = ground arith
below_through (k ∷ ks) key (suc i) h = ground (arith, below_through ks key i)

All-above :
    (ks : List (List ℕ)) (k key : List ℕ) (i : ℕ)
    → All (λ j. key_lt k j ≡ true) ks
    → key_lt key k ≡ true
    → i < length ks
    → key_lt key (separator_at ks i) ≡ true
unfolding separator_at
All-above [] k key i a h l = absurd (omega arith)
All-above (j ∷ ks) k key zero a h l = key_lt_trans key k j h a.0
All-above (j ∷ ks) k key (suc i) a h l = All-above ks k key i a.1 h (omega arith)

above_through :
    (ks : List (List ℕ)) (key : List ℕ) (i : ℕ)
    → IsSorted ks
    → rank_through ks key ≤ i
    → i < length ks
    → key_lt key (separator_at ks i) ≡ true
unfolding separator_at
above_through [] key i s h l = absurd (omega arith)
above_through (k ∷ ks) key zero s h l = ground arith
above_through (k ∷ ks) key (suc i) s h l = elim (Bool-cases (key_lt key k)) [
  | inl p ↦ All-above ks k key i s.0 p (omega arith)
  | inr p ↦ above_through ks key i s.1 (ground arith) (omega arith)
]

-- The binary search of `childFor` stops behind the separators at or below the key.
pub child_for-rank_through :
    (ks : List (List ℕ)) (key : List ℕ) → IsSorted ks → child_for ks key ≡ rank_through ks key
unfolding child_for
child_for-rank_through ks key s =
    search_lem _ (length ks) (rank_through ks key) (below_through ks key)
      (λ i l u. above_through ks key i s l u) (rank_through-le ks key)
