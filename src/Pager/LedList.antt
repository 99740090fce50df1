-- ===== src/Pager/LedList.antt =====
-- The free list of a led file, internal/pager/led.go, which has one reserved page.
use sapedb.Base.{
  ℕ, zero, suc, ◌+◌, ◌*◌, ◌≤◌, ◌<◌, ◌≡◌, refl, ap, true, false, ◌||◌, inl, inr, List, [], ◌∷◌, ◌++◌,
  length, ltb, leb, ◌==◌, arith, Bool-cases, err, All, length-append, length-take, length-drop,
  take, drop, le→ltb,
}
use sapedb.Base.Ids.{has}
use sapedb.Pager.Freelist.{bad_freelist, Pager}
use sapedb.Pager.Commit.{head_or_zero, list_pages, free_per_page}
use sapedb.Pager.Reading.{Disk, ListRead, Led, read_list, add_entries, read_freelist, abandon}
use sapedb.Pager.ReadBack.{pages_of, Holds, IsListPage, pages_of-take-drop}

abbrev Refused : ListRead → Type 0
Refused r = r.result ≡ err bad_freelist

-- A page of entries is either read whole, and then page 1 is not among them, or refused.
add_entries-Refused :
    (page_count : ℕ) (entries : List (ℕ × ℕ)) (chain ready : List ℕ) (next : List ℕ → ListRead)
    → ((more : List ℕ) → has 1 (pages_of entries) ≡ false → Refused (next more))
    → Refused (add_entries page_count entries chain ready next)
unfolding add_entries
add_entries-Refused page_count [] chain ready next h = h ready refl
add_entries-Refused page_count ((t, freed) ∷ entries) chain ready next h =
    elim (Bool-cases (leb freed 1 || leb page_count freed)) [
      | inl e ↦ rw e refl
      | inr e ↦ rw e (
          add_entries-Refused page_count entries chain (ready ++ (freed ∷ [])) next
            (λ more clean. h more (ground arith)))
    ]

has-append : (a : ℕ) (xs ys : List ℕ) → has a (xs ++ ys) ≡ (has a xs || has a ys)
has-append a [] ys = refl
has-append a (x ∷ xs) ys = ground (arith, has-append a xs ys)

no_ones : (entries : List (ℕ × ℕ)) → length entries ≤ 0 → ¬ (has 1 (pages_of entries) ≡ true)
no_ones [] h = λ e. cc e
no_ones (x ∷ entries) h = absurd (omega arith)

read_list-Refused :
    (fuel : ℕ) (d : Disk) (reserved page_count : ℕ) (ids : List ℕ) (entries : List (ℕ × ℕ))
    (chain ready : List ℕ)
    → length ids < fuel
    → All (IsListPage reserved page_count) ids
    → length chain + length ids ≤ page_count + 1
    → length entries ≤ free_per_page * length ids
    → Holds d (list_pages ids entries)
    → has 1 (pages_of entries) ≡ true
    → Refused (read_list fuel d reserved page_count (head_or_zero ids) chain ready)
unfolding list_pages read_list
read_list-Refused zero d reserved page_count ids entries chain ready enough i short fits held one =
    absurd (omega arith)
read_list-Refused (suc fuel) d reserved page_count [] entries chain ready enough i short fits held
      one =
    absurd (no_ones entries fits one)
read_list-Refused (suc fuel) d reserved page_count (id ∷ ids) entries chain ready enough (i, is)
      short fits (held, helds) one =
    let back = drop free_per_page entries in
    let some_page : (id == 0) ≡ false = ground arith in
    let inside : (ltb id reserved || leb page_count id || ltb page_count (length chain)) ≡ false =
      ground arith in
    let few : ltb free_per_page (length (take free_per_page entries)) ≡ false =
      le→ltb free_per_page (length (take free_per_page entries))
        (omega (arith, length-take free_per_page entries)) in
    rw (some_page, inside, held, few)
      (add_entries-Refused page_count (take free_per_page entries) _ ready _ (λ more clean.
        read_list-Refused fuel d reserved page_count ids back (chain ++ (id ∷ [])) more
          (omega arith) is (omega (arith, length-append chain (id ∷ [])))
          (omega (arith, length-drop free_per_page entries)) helds (behind entries one clean)))
  where
    behind :
        (l : List (ℕ × ℕ))
        → has 1 (pages_of l) ≡ true
        → has 1 (pages_of (take free_per_page l)) ≡ false
        → has 1 (pages_of (drop free_per_page l)) ≡ true
    behind l all front = ground (
      arith,
      has-append 1 (pages_of (take free_per_page l)) (pages_of (drop free_per_page l)),
      ap (has 1) (pages_of-take-drop free_per_page l),
    )

-- A led file whose list names page 1, its first page of data, does not read back: `Abandon` fails
-- with the error of a damaged list, although the list is the one that `writeFreelist` lays out.
pub abandon_refuses :
    (d : Disk) (p : Pager) (at : Led) (ids : List ℕ) (entries : List (ℕ × ℕ))
    → p.is_led ≡ true
    → at.freelist ≡ head_or_zero ids
    → 1 ≤ at.page_count
    → All (IsListPage p.reserved at.page_count) ids
    → length ids ≤ at.page_count
    → length entries ≤ free_per_page * length ids
    → Holds d (list_pages ids entries)
    → has 1 (pages_of entries) ≡ true
    → (abandon d p at).0 ≡ err bad_freelist
unfolding abandon read_freelist
abandon_refuses d p at ids entries is_led head some_pages i few fits held one =
    let counted : ltb at.page_count 1 ≡ false = ground arith in
    rw (is_led, counted, head)
      (read_list-Refused (suc (suc (suc at.page_count))) d p.reserved at.page_count ids entries []
        [] (omega arith) i (omega arith) fits held one)
