-- ===== src/Btree/LeafMap.antt =====
-- A leaf is a sorted map: what `Get` finds after a put and after a removal.
use sapedb.Base.{
  ℕ, ◌≡◌, refl, sym, ap, ◌∙◌, ◌⊎◌, true, false, inl, inr, none, some, List, [], ◌∷◌, All,
  if◌then◌else◌, arith, Bool-cases,
}
use sapedb.Base.Lex.{
  key_lt, key_eq, key_lt_trans, key_lt_asym, key_cases, key_eq-true, key_eq_refl, key_lt_not_eq,
}
use sapedb.Btree.Node.{Kv}
use sapedb.Btree.Sorted.{IsSorted, keys_of}
use sapedb.Btree.Leaf.{
  put_entry, remove_entry, get_entry, find, put_walk, remove_walk, here, here-find, here-find-some,
  get_entry-find, put_entry-put_walk, remove_entry-remove_walk,
}

put_walk-All :
    (k : List ℕ) (es : List Kv) (x : Kv)
    → All (λ j. key_lt k j ≡ true) (keys_of es)
    → key_lt k x.key ≡ true
    → All (λ j. key_lt k j ≡ true) (keys_of (put_walk es x))
put_walk-All k [] x a h = (h, tt)
put_walk-All k (e ∷ es) x a h = ground (arith, put_walk-All k es x a.1 h)

not_less : (a b : List ℕ) → key_lt a b ≡ false → key_eq a b ≡ false → key_lt b a ≡ true
not_less a b h k = elim (key_cases a b) [
  | inl p ↦ cc (p, h)
  | inr (inl e) ↦ cc (k, ap (key_eq a) (sym e), key_eq_refl a)
  | inr (inr p) ↦ p
]

All-trans :
    (k j : List ℕ) (ks : List (List ℕ))
    → key_lt k j ≡ true
    → All (λ i. key_lt j i ≡ true) ks
    → All (λ i. key_lt k i ≡ true) ks
All-trans k j [] h a = tt
All-trans k j (i ∷ ks) h a = (key_lt_trans k j i h a.0, All-trans k j ks h a.1)

pub put_walk-IsSorted :
    (es : List Kv) (x : Kv) → IsSorted (keys_of es) → IsSorted (keys_of (put_walk es x))
put_walk-IsSorted [] x s = (tt, tt)
put_walk-IsSorted (e ∷ es) x s = elim (Bool-cases (key_lt e.key x.key)) [
  | inl p ↦ rw p (put_walk-All e.key es x s.0 p, put_walk-IsSorted es x s.1)
  | inr p ↦ elim (Bool-cases (key_eq e.key x.key)) [
    | inl q ↦ rw (p, q) (rw (sym (key_eq-true e.key x.key q)) s.0, s.1)
    | inr q ↦
        let l = not_less e.key x.key p q in
        rw (p, q) ((l, All-trans x.key e.key (keys_of es) l s.0), s)
  ]
]

contra_lt :
    (a b c : List ℕ)
    → key_lt a b ≡ false
    → key_eq a b ≡ false
    → key_lt b c ≡ false
    → key_lt a c ≡ false
contra_lt a b c h k l = elim (Bool-cases (key_lt a c)) [
  | inl p ↦ cc (l, key_lt_trans b a c (not_less a b h k) p)
  | inr p ↦ p
]

contra_eq :
    (a b c : List ℕ)
    → key_lt a b ≡ false
    → key_eq a b ≡ false
    → key_lt b c ≡ false
    → key_eq a c ≡ false
contra_eq a b c h k l = elim (Bool-cases (key_eq a c)) [
  | inl p ↦ cc (l, ap (key_lt b) (key_eq-true a c p), not_less a b h k)
  | inr p ↦ p
]

-- What three keys tell of one another.
record OrderFacts (a b c : List ℕ) : Type 0 where
  ab_eq : key_eq a b ≡ true → (key_lt a c ≡ key_lt b c) × (key_eq a c ≡ key_eq b c)
  bc_eq : key_eq b c ≡ true → (key_lt a b ≡ key_lt a c) × (key_eq a b ≡ key_eq a c)
  bc_lt : key_lt b c ≡ true → key_eq b c ≡ false
  ac_lt : key_lt a c ≡ true → key_eq a c ≡ false
  ba_lt :
      key_lt a b ≡ false
      → key_eq a b ≡ false
      → key_lt b c ≡ false
      → (key_lt a c ≡ false) × (key_eq a c ≡ false)

order_facts : (a b c : List ℕ) → OrderFacts a b c
order_facts a b c = record {
  ab_eq = λ h. let e = key_eq-true a b h in (ap (λ k. key_lt k c) e, ap (λ k. key_eq k c) e);
  bc_eq = λ h. let e = key_eq-true b c h in (ap (key_lt a) e, ap (key_eq a) e);
  bc_lt = key_lt_not_eq b c;
  ac_lt = key_lt_not_eq a c;
  ba_lt = λ h k l. (contra_lt a b c h k l, contra_eq a b c h k l);
}

pub find-put_walk :
    (es : List Kv) (x : Kv) (key : List ℕ)
    → IsSorted (keys_of es)
    → find (put_walk es x) key ≡ (if key_eq x.key key then some x else find es key)
find-put_walk [] x key s = ground (arith, key_lt_not_eq x.key key)
find-put_walk (e ∷ es) x key s =
    ground (arith, find-put_walk es x key s.1, order_facts e.key x.key key)

-- Everything at or above a key is not found below it.
pub find_above :
    (k : List ℕ) (es : List Kv) → All (λ j. key_lt k j ≡ true) (keys_of es) → find es k ≡ none
find_above k [] a = refl
find_above k (e ∷ es) a = rw (key_lt_asym k e.key a.0, eq_sym_false) refl
  where
    eq_sym_false : key_eq e.key k ≡ false
    eq_sym_false = elim (Bool-cases (key_eq e.key k)) [
      | inl p ↦ cc (
        key_lt_not_eq k e.key a.0,
        ap (λ j. key_eq j e.key) (key_eq-true e.key k p),
        key_eq_refl e.key,
      )
      | inr p ↦ p
    ]

find_from :
    (j key : List ℕ) (es : List Kv)
    → All (λ i. key_lt j i ≡ true) (keys_of es)
    → key_lt j key ≡ false
    → find es key ≡ none
find_from j key es a h = elim (key_cases j key) [
  | inl p ↦ cc (p, h)
  | inr (inl e) ↦ rw (sym e) (find_above j es a)
  | inr (inr p) ↦ find_above key es (All-trans key j (keys_of es) p a)
]

find-remove_walk :
    (es : List Kv) (k key : List ℕ)
    → IsSorted (keys_of es)
    → find (remove_walk es k) key ≡ (if key_eq k key then none else find es key)
find-remove_walk [] k key s = ground arith
find-remove_walk (e ∷ es) k key s =
    ground
      (arith, find-remove_walk es k key s.1, order_facts e.key k key, find_from e.key key es s.0)

remove_walk-All :
    (j : List ℕ) (es : List Kv) (k : List ℕ)
    → All (λ i. key_lt j i ≡ true) (keys_of es)
    → All (λ i. key_lt j i ≡ true) (keys_of (remove_walk es k))
remove_walk-All j [] k a = tt
remove_walk-All j (e ∷ es) k a = ground (arith, remove_walk-All j es k a.1)

remove_walk-IsSorted :
    (es : List Kv) (k : List ℕ) → IsSorted (keys_of es) → IsSorted (keys_of (remove_walk es k))
remove_walk-IsSorted [] k s = tt
remove_walk-IsSorted (e ∷ es) k s =
    ground (arith, remove_walk-IsSorted es k s.1, remove_walk-All e.key es k s.0)

module _ (es : List Kv) (s : IsSorted (keys_of es)) where
  -- Putting an entry into a sorted leaf keeps it sorted; the leaf then finds that entry under its
  -- key, and under any other key what it found before.
  pub get_entry-put_entry :
      (x : Kv)
      → IsSorted (keys_of (put_entry es x))
        × ((key : List ℕ)
            → get_entry (put_entry es x) key
              ≡ (if key_eq x.key key then some x else get_entry es key))
  get_entry-put_entry x = rw (put_entry-put_walk es s x) (
    put_walk-IsSorted es x s,
    λ key.
        get_entry-find (put_walk es x) (put_walk-IsSorted es x s) key
        ∙ find-put_walk es x key s
        ∙ ap (λ o. if key_eq x.key key then some x else o) (sym (get_entry-find es s key)),
  )

  -- Removing a key from a sorted leaf answers `none` exactly when the key is not found; otherwise
  -- the entries stay sorted, the key is found no more, and any other is found as before.
  pub get_entry-remove_entry :
      (k : List ℕ)
      → ((remove_entry es k ≡ none) × (get_entry es k ≡ none))
        ⊎ ((rest : List Kv) × (remove_entry es k ≡ some rest)
            × ((e : Kv) × (get_entry es k ≡ some e))
            × IsSorted (keys_of rest)
            × ((key : List ℕ)
                → get_entry rest key ≡ (if key_eq k key then none else get_entry es key)))
  get_entry-remove_entry k = elim (Bool-cases (here es k)) [
    | inr p ↦ inl (remove_entry-remove_walk es s k ∙ rw p, get_entry-find es s k ∙ here-find es k p)
    | inl p ↦
        let sorted = remove_walk-IsSorted es k s in
        let (e, q) = here-find-some es k p in
        inr (
          remove_walk es k,
          remove_entry-remove_walk es s k ∙ rw p,
          (e, get_entry-find es s k ∙ q),
          sorted,
          λ key.
              get_entry-find (remove_walk es k) sorted key
              ∙ find-remove_walk es k key s
              ∙ ap (λ o. if key_eq k key then none else o) (sym (get_entry-find es s key)),
        )
  ]
