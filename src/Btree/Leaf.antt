-- ===== src/Btree/Leaf.antt =====
-- What `Get`, `insert` and `remove` of internal/btree/tree.go do to the entries of one leaf.
use sapedb.Base.{
  ℕ, zero, suc, ◌≡◌, refl, sym, ap, ◌∙◌, Bool, true, false, ◌&&◌, inl, inr, Option, none, some,
  List, [], ◌∷◌, ◌++◌, length, get_elem?, take, drop, ltb, if◌then◌else◌, arith, Bool-cases,
}
use sapedb.Base.Lex.{key_lt, key_eq}
use sapedb.Btree.Node.{Kv, key_at, find_key}
use sapedb.Btree.Sorted.{IsSorted, keys_of, rank, find_key-rank}

-- `entries[at] = entry`
unfoldable pub replace_entry : List Kv → ℕ → Kv → List Kv
replace_entry [] at entry = []
replace_entry (e ∷ es) zero entry = entry ∷ es
replace_entry (e ∷ es) (suc at) entry = e ∷ replace_entry es at entry

-- The leaf case of `insert`, before its size is looked at.
unfoldable pub put_entry : List Kv → Kv → List Kv
put_entry entries entry =
    let (at, found) = find_key entries entry.key in
    if found then replace_entry entries at entry else take at entries ++ (entry ∷ drop at entries)

-- The leaf case of `remove`: `none` where the key is not there.
unfoldable pub remove_entry : List Kv → List ℕ → Option (List Kv)
remove_entry entries key =
    let (at, found) = find_key entries key in
    if found then some (take at entries ++ drop (suc at) entries) else none

-- The leaf case of `Get`.
unfoldable pub get_entry : List Kv → List ℕ → Option Kv
get_entry entries key =
    let (at, found) = find_key entries key in if found then get_elem? entries at else none

-- The same by walking the entries in order.
abbrev pub find : List Kv → List ℕ → Option Kv
find [] key = none
find (e ∷ es) key =
    if key_lt e.key key then find es key else if key_eq e.key key then some e else none

abbrev pub put_walk : List Kv → Kv → List Kv
put_walk [] x = x ∷ []
put_walk (e ∷ es) x =
    if key_lt e.key x.key
    then e ∷ put_walk es x
    else if key_eq e.key x.key
    then x ∷ es
    else x ∷ e ∷ es

abbrev pub remove_walk : List Kv → List ℕ → List Kv
remove_walk [] key = []
remove_walk (e ∷ es) key =
    if key_lt e.key key then e ∷ remove_walk es key else if key_eq e.key key then es else e ∷ es

-- Whether the entry at the rank of a key has that key.
abbrev pub here : List Kv → List ℕ → Bool
here es key =
    ltb (rank (keys_of es) key) (length es) && key_eq (key_at es (rank (keys_of es) key)) key

find_key-here :
    (es : List Kv) (key : List ℕ)
    → IsSorted (keys_of es)
    → find_key es key ≡ (rank (keys_of es) key, here es key)
unfolding find_key
find_key-here es key s =
    ap (λ at. (at, ltb at (length es) && key_eq (key_at es at) key)) (find_key-rank es key s)

here-cons_lt :
    (e : Kv) (es : List Kv) (key : List ℕ)
    → key_lt e.key key ≡ true
    → here (e ∷ es) key ≡ here es key
unfolding key_at
here-cons_lt e es key h = ground arith

here-cons_ge :
    (e : Kv) (es : List Kv) (key : List ℕ)
    → key_lt e.key key ≡ false
    → here (e ∷ es) key ≡ key_eq e.key key
unfolding key_at
here-cons_ge e es key h = ground arith

get_walk :
    (es : List Kv) (key : List ℕ)
    → (if here es key then get_elem? es (rank (keys_of es) key) else none) ≡ find es key
get_walk [] key = refl
get_walk (e ∷ es) key = elim (Bool-cases (key_lt e.key key)) [
  | inl p ↦ rw (here-cons_lt e es key p) (rw p (get_walk es key))
  | inr p ↦ rw (here-cons_ge e es key p) (rw p)
]

put_walk_lem :
    (es : List Kv) (x : Kv)
    → (if here es x.key
        then replace_entry es (rank (keys_of es) x.key) x
        else take (rank (keys_of es) x.key) es ++ (x ∷ drop (rank (keys_of es) x.key) es))
      ≡ put_walk es x
unfolding replace_entry
put_walk_lem [] x = refl
put_walk_lem (e ∷ es) x = elim (Bool-cases (key_lt e.key x.key)) [
  | inl p ↦
      rw (here-cons_lt e es x.key p)
        (rw p (if_cons e (here es x.key) _ _ ∙ ap (λ l. e ∷ l) (put_walk_lem es x)))
  | inr p ↦ rw (here-cons_ge e es x.key p) (rw p)
]
  where
    if_cons :
        (e : Kv) (b : Bool) (l r : List Kv)
        → (if b then e ∷ l else e ∷ r) ≡ e ∷ (if b then l else r)
    if_cons e true l r = refl
    if_cons e false l r = refl

remove_walk_lem :
    (es : List Kv) (key : List ℕ)
    → here es key ≡ true
    → take (rank (keys_of es) key) es ++ drop (suc (rank (keys_of es) key)) es ≡ remove_walk es key
remove_walk_lem [] key h = cc
remove_walk_lem (e ∷ es) key h = elim (Bool-cases (key_lt e.key key)) [
  | inl p ↦ rw p (ap (λ l. e ∷ l) (remove_walk_lem es key (sym (here-cons_lt e es key p) ∙ h)))
  | inr p ↦ rw (p, sym (here-cons_ge e es key p) ∙ h)
]

pub here-find : (es : List Kv) (key : List ℕ) → here es key ≡ false → find es key ≡ none
here-find es key h = sym (get_walk es key) ∙ rw h

pub here-find-some :
    (es : List Kv) (key : List ℕ) → here es key ≡ true → (e : Kv) × (find es key ≡ some e)
here-find-some [] key h = cc
here-find-some (e ∷ es) key h = elim (Bool-cases (key_lt e.key key)) [
  | inl p ↦ let (x, q) = here-find-some es key (sym (here-cons_lt e es key p) ∙ h) in (x, rw p q)
  | inr p ↦ (e, rw (p, sym (here-cons_ge e es key p) ∙ h))
]

module _ (es : List Kv) (s : IsSorted (keys_of es)) where
  -- Binary search or not, the three operations walk the sorted entries.
  pub get_entry-find : (key : List ℕ) → get_entry es key ≡ find es key
  unfolding get_entry
  get_entry-find key = rw (find_key-here es key s) (get_walk es key)

  pub put_entry-put_walk : (x : Kv) → put_entry es x ≡ put_walk es x
  unfolding put_entry
  put_entry-put_walk x = rw (find_key-here es x.key s) (put_walk_lem es x)

  pub remove_entry-remove_walk :
      (key : List ℕ)
      → remove_entry es key ≡ (if here es key then some (remove_walk es key) else none)
  unfolding remove_entry
  remove_entry-remove_walk key = rw (find_key-here es key s) (elim (Bool-cases (here es key)) [
    | inl p ↦ rw p (ap some (remove_walk_lem es key p))
    | inr p ↦ rw p
  ])
