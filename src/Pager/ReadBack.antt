-- ===== src/Pager/ReadBack.antt =====
-- The loop of `readFreelist` of internal/pager/freelist.go: its end, and lists as `writeFreelist`
-- lays them out.
use sapedb.Base.{
  ℕ, zero, suc, ◌+◌, ◌*◌, ◌≤◌, ◌<◌, ◌≡◌, refl, sym, ap, ◌∙◌, false, not, ◌||◌, inl, inr, List, [],
  ◌∷◌, ◌++◌, map, length, take, drop, ltb, leb, ◌==◌, Result, ok, err, arith, All, Bool-cases,
  length-append, length-take, length-drop, append_assoc, append-nil,
}
use sapedb.Pager.Freelist.{Error, bad_freelist, stuck}
use sapedb.Pager.Commit.{ListPage, free_per_page, list_pages, head_or_zero}
use sapedb.Pager.Reading.{Disk, DiskPage, kind_free, ListRead, add_entries, after_read, read_list}

abbrev pub pages_of : List (ℕ × ℕ) → List ℕ
pages_of entries = map (λ e. e.1) entries

-- Answers of the loop without a round more than it has.
abbrev pub Ended : ListRead → Type 0
Ended r = ¬ (r.result ≡ err stuck)

bad_Ended :
    (chain ready : List ℕ)
    → Ended (record { result = err bad_freelist; chain = chain; ready = ready })
bad_Ended chain ready h = cc h

add_entries-Ended :
    (page_count : ℕ) (entries : List (ℕ × ℕ)) (chain ready : List ℕ) (next : List ℕ → ListRead)
    → ((rest : List ℕ) → Ended (next rest))
    → Ended (add_entries page_count entries chain ready next)
unfolding add_entries
add_entries-Ended page_count [] chain ready next h = h ready
add_entries-Ended page_count ((t, freed) ∷ entries) chain ready next h =
    elim (Bool-cases (leb freed 1 || leb page_count freed)) [
      | inl e ↦ rw e (bad_Ended chain ready)
      | inr e ↦ rw e (add_entries-Ended page_count entries chain (ready ++ (freed ∷ [])) next h)
    ]

module _ (page_count id : ℕ) (chain ready : List ℕ) (next : ℕ → List ℕ → List ℕ → ListRead) where
  after_read-Ended :
      (r : Result Error DiskPage)
      → ¬ (r ≡ err stuck)
      → ((rest : ℕ) (more : List ℕ) → Ended (next rest (chain ++ (id ∷ [])) more))
      → Ended (after_read page_count id chain ready next r)
  after_read-Ended (err e) answers h = λ stop. answers (cc stop)
  after_read-Ended (ok page) answers h = elim (Bool-cases (not (page.kind == kind_free))) [
    | inl e ↦ rw e (bad_Ended chain ready)
    | inr e ↦ rw e (elim (Bool-cases (ltb free_per_page (length page.list.entries))) [
      | inl f ↦ rw f (bad_Ended (chain ++ (id ∷ [])) ready)
      | inr f ↦ rw f (
          add_entries-Ended page_count page.list.entries (chain ++ (id ∷ [])) ready _
            (h page.list.next))
    ])
  ]

-- The loop has rounds enough: it ends, whatever the file holds.
pub read_list_total :
    (fuel : ℕ) (d : Disk) (reserved page_count id : ℕ) (chain ready : List ℕ)
    → ((a : ℕ) → ¬ (d.page_at a ≡ err stuck))
    → length chain ≤ page_count + 1
    → page_count + 3 ≤ fuel + length chain
    → Ended (read_list fuel d reserved page_count id chain ready)
unfolding read_list
read_list_total zero d reserved page_count id chain ready answers short enough = omega arith
read_list_total (suc fuel) d reserved page_count id chain ready answers short enough =
    elim (Bool-cases (id == 0)) [
      | inl e ↦ rw e (λ h. cc h)
      | inr e ↦
          rw e
            (elim (Bool-cases
              (ltb id reserved || leb page_count id || ltb page_count (length chain))) [
                | inl f ↦ rw f (bad_Ended chain ready)
                | inr f ↦ rw f (
                    after_read-Ended page_count id chain ready
                      (read_list fuel d reserved page_count) (d.page_at id) (answers id)
                      (λ rest more.
                        read_list_total fuel d reserved page_count rest _ more answers
                          (ground (arith, length-append chain (id ∷ [])))
                          (omega (arith, length-append chain (id ∷ [])))))
              ])
    ]

-- The file answers the pages of a list as they were written.
abbrev pub Holds : Disk → List (ℕ × ListPage) → Type 0
Holds d pages = All (λ w. d.page_at w.0 ≡ ok (record { kind = kind_free; list = w.1 })) pages

abbrev pub IsEntry : ℕ → (ℕ × ℕ) → Type 0
IsEntry page_count e = (1 < e.1) × (e.1 < page_count)

abbrev pub IsListPage : ℕ → ℕ → ℕ → Type 0
IsListPage reserved page_count id = (0 < id) × (reserved ≤ id) × (id < page_count)

add_entries-pages_of :
    (page_count : ℕ) (entries : List (ℕ × ℕ)) (chain ready : List ℕ) (next : List ℕ → ListRead)
    → All (IsEntry page_count) entries
    → add_entries page_count entries chain ready next ≡ next (ready ++ pages_of entries)
unfolding add_entries
add_entries-pages_of page_count [] chain ready next h = ap next (sym (append-nil ready))
add_entries-pages_of page_count ((t, freed) ∷ entries) chain ready next ((low, high), h) =
    let inside : (leb freed 1 || leb page_count freed) ≡ false = ground arith in
    rw inside (
      add_entries-pages_of page_count entries chain (ready ++ (freed ∷ [])) next h
      ∙ ap next (append_assoc ready (freed ∷ []) (pages_of entries)))

pub pages_of-take-drop :
    (n : ℕ) (entries : List (ℕ × ℕ))
    → pages_of (take n entries) ++ pages_of (drop n entries) ≡ pages_of entries
pages_of-take-drop zero entries = refl
pages_of-take-drop (suc n) [] = refl
pages_of-take-drop (suc n) (e ∷ entries) = ap (λ l. e.1 ∷ l) (pages_of-take-drop n entries)

All-take :
    (P : ℕ × ℕ → Type 0) (n : ℕ) (entries : List (ℕ × ℕ)) → All P entries → All P (take n entries)
All-take P zero entries h = tt
All-take P (suc n) [] h = tt
All-take P (suc n) (e ∷ entries) (h, t) = (h, All-take P n entries t)

All-drop :
    (P : ℕ × ℕ → Type 0) (n : ℕ) (entries : List (ℕ × ℕ)) → All P entries → All P (drop n entries)
All-drop P zero entries h = h
All-drop P (suc n) [] h = tt
All-drop P (suc n) (e ∷ entries) (h, t) = All-drop P n entries t

no_entries : (entries : List (ℕ × ℕ)) → length entries ≤ 0 → pages_of entries ≡ []
no_entries [] h = refl
no_entries (e ∷ entries) h = absurd (omega arith)

-- One page of a list that is read: it joins the chain, and its entries the ready pages.
read_list-page :
    (fuel : ℕ) (d : Disk) (reserved page_count id : ℕ) (page : ListPage) (chain ready : List ℕ)
    → IsListPage reserved page_count id
    → length chain ≤ page_count
    → d.page_at id ≡ ok (record { kind = kind_free; list = page })
    → length page.entries ≤ free_per_page
    → All (IsEntry page_count) page.entries
    → read_list (suc fuel) d reserved page_count id chain ready
      ≡ read_list fuel d reserved page_count page.next
          (chain ++ (id ∷ []))
          (ready ++ pages_of page.entries)
unfolding read_list
read_list-page fuel d reserved page_count id page chain ready (pos, low, high) short held fits h =
    let some_page : (id == 0) ≡ false = ground arith in
    let inside : (ltb id reserved || leb page_count id || ltb page_count (length chain)) ≡ false =
      ground arith in
    let few : ltb free_per_page (length page.entries) ≡ false = ground arith in
    rw (some_page, inside, held, few) (add_entries-pages_of page_count page.entries _ ready _ h)

-- The list that `writeFreelist` lays out, read from its head.
pub read_list-list_pages :
    (fuel : ℕ) (d : Disk) (reserved page_count : ℕ) (ids : List ℕ) (entries : List (ℕ × ℕ))
    (chain ready : List ℕ)
    → length ids < fuel
    → All (IsListPage reserved page_count) ids
    → length chain + length ids ≤ page_count + 1
    → length entries ≤ free_per_page * length ids
    → All (IsEntry page_count) entries
    → Holds d (list_pages ids entries)
    → read_list fuel d reserved page_count (head_or_zero ids) chain ready
      ≡ record { result = ok tt; chain = chain ++ ids; ready = ready ++ pages_of entries }
unfolding list_pages read_list
read_list-list_pages zero d reserved page_count ids entries chain ready fuel i short fits h held =
    absurd (omega arith)
read_list-list_pages (suc fuel) d reserved page_count [] entries chain ready enough i short fits h
      held =
    rw (no_entries entries fits, append-nil chain, append-nil ready)
read_list-list_pages (suc fuel) d reserved page_count (id ∷ ids) entries chain ready enough (i, is)
      short fits h (held, helds) =
    let front = take free_per_page entries in
    let back = drop free_per_page entries in
    let rest =
      read_list-list_pages fuel d reserved page_count ids back (chain ++ (id ∷ []))
        (ready ++ pages_of front) (omega arith) is (omega (arith, length-append chain (id ∷ [])))
        (omega (arith, length-drop free_per_page entries))
        (All-drop (IsEntry page_count) free_per_page entries h) helds in
    read_list-page fuel d reserved page_count id _ chain ready i (omega arith) held
      (omega (arith, length-take free_per_page entries))
      (All-take (IsEntry page_count) free_per_page entries h)
    ∙ rest
    ∙ ap
        (λ l. record {
          result = ok tt;
          chain = l;
          ready = (ready ++ pages_of front) ++ pages_of back;
        })
        (append_assoc chain (id ∷ []) ids)
    ∙ ap (λ l. record { result = ok tt; chain = chain ++ (id ∷ ids); ready = l })
        (append_assoc ready (pages_of front) (pages_of back)
          ∙ ap (λ l. ready ++ l) (pages_of-take-drop free_per_page entries))
