-- ===== src/Btree/Chain.antt =====
-- The chain of pages that holds a value out of line: store, writeOverflow, load and release of
-- internal/btree/tree.go.
use sapedb.Base.{
  ℕ, zero, suc, ◌+◌, ◌-◌, ◌*◌, ◌/◌, ◌≤◌, ◌<◌, ◌≡◌, refl, sym, ap, ◌∙◌, true, false, ◌||◌, List, [],
  ◌∷◌, ◌++◌, append-nil, append_assoc, length, take, drop, length-append, length-take, length-drop,
  take-append-drop, leb, ltb, ◌==◌, ok, arith, inl, inr, Bool-cases,
}
use sapedb.Base.Ids.{count, count-append, count-cons, count-erase}
use sapedb.Btree.Node.{Kv, max_inline, overflows}
use sapedb.Btree.Pages.{Pages, Page, blob_page, write, take_page, give_page}
use sapedb.Btree.Overflow.{
  overflow_chunk, write_chunks, write_overflow, store, load, load_loop, release, release_loop,
}
use sapedb.Btree.Shape.{Holds}
use sapedb.Btree.Lookup.{read-Holds}
use sapedb.Btree.Insert.{Wrote-Holds, Still-Holds}
use sapedb.Btree.PutTree.{map_Spec}
use sapedb.Btree.Writes.{Does, bind-Does, IsRefusal, Took, Wrote, take_page-Took, write-Wrote}
use sapedb.Pager.Accounts.{Accounts, Accounts-count, free-Accounts, free-FreeKept}
use sapedb.Pager.Freelist.{free}

-- The pages of a chain with what each holds, from the first on.
abbrev pub Links : Type 0
Links = List (ℕ × List ℕ)

abbrev pub text : Links → List ℕ
text [] = []
text ((id, chunk) ∷ links) = chunk ++ text links

abbrev pub pages : Links → List ℕ
pages [] = []
pages ((id, chunk) ∷ links) = id ∷ pages links

-- A chain from `head` on. Every page of it holds a byte of the value or more.
abbrev pub Linked : Pages → ℕ → Links → Type 0
Linked s head [] = head ≡ 0
Linked s head ((id, chunk) ∷ links) =
    (head ≡ id)
    × (0 < length chunk)
    × (length chunk ≤ overflow_chunk)
    × (next : ℕ) × Holds s id (blob_page next chunk)
    × Linked s next links

Linked-Wrote :
    {s : Pages} {used : List ℕ} {page : Page} {id : ℕ} {u : Pages} (links : Links) (head : ℕ)
    → Wrote s used page id u
    → ((a : ℕ) → 0 < count a (pages links) → 0 < count a used)
    → Linked s head links
    → Linked u head links
Linked-Wrote [] head w k h = h
Linked-Wrote ((id, chunk) ∷ links) head w k (e, p, q, next, h, l) = (
  e,
  p,
  q,
  next,
  Still-Holds w (k id (ground arith)) h,
  Linked-Wrote links next w (λ a c. k a (omega (arith, count-cons a id (pages links)))) l,
)

-- What is written of a value: the part behind its front, on pages of its own.
record Chained (s : Pages) (used : List ℕ) (rest : List ℕ) (head : ℕ) (t : Pages) : Type 0 where
  links : Links
  linked : Linked t head links
  holds : text links ≡ rest
  accounts : Accounts t.pager (pages links ++ used)
  kept : (a : ℕ) → 0 < count a used → t.page_at a ≡ s.page_at a
  reserved : t.pager.reserved ≡ s.pager.reserved

drop_none : (m : ℕ) → ◌≡◌ {A = List ℕ} (drop m []) []
drop_none zero = refl
drop_none (suc m) = refl

drop-drop : (m n : ℕ) (xs : List ℕ) → drop m (drop n xs) ≡ drop (n + m) xs
drop-drop m zero xs = ap (λ i. drop i xs) (start m)
  where
    start : (m : ℕ) → m ≡ 0 + m
    start m = omega arith
drop-drop m (suc n) [] = drop_none m ∙ sym (drop_none (suc n + m))
drop-drop m (suc n) (x ∷ xs) = drop-drop m n xs ∙ ap (λ i. drop i (x ∷ xs)) (one_more m n)
  where
    one_more : (m n : ℕ) → suc (n + m) ≡ suc n + m
    one_more m n = omega arith

write_chunks-Chained :
    (chunks : ℕ) (value : List ℕ) (used : List ℕ) (s t : Pages) (next : ℕ)
    → 0 < s.pager.reserved
    → chunks * overflow_chunk < length value + overflow_chunk
    → Chained s used (drop (chunks * overflow_chunk) value) next t
    → Does (write_chunks chunks value next) t (Chained s used value) IsRefusal
unfolding write_chunks
write_chunks-Chained zero value used s t next pos l c = c
write_chunks-Chained (suc chunks) value used s t next pos l c =
    bind-Does take_page _ t (Took t (pages c.links ++ used)) (Chained s used value) IsRefusal
      (take_page-Took t (pages c.links ++ used) c.accounts)
      (λ id u k.
        bind-Does (write id (ok (blob_page next chunk))) _ u
          (λ v. Wrote t (pages c.links ++ used) (blob_page next chunk) id) (Chained s used value)
          IsRefusal (write-Wrote t (pages c.links ++ used) (blob_page next chunk) id u k)
          (λ v w y. write_chunks-Chained chunks value used s w id pos (omega arith) (record {
            links = (id, chunk) ∷ c.links;
            linked = (
              refl,
              size.0,
              size.1,
              next,
              Wrote-Holds (rw c.reserved pos) y,
              Linked-Wrote c.links next y
                  (λ a b. omega (arith, count-append a (pages c.links) used)) c.linked,
            );
            holds = whole;
            accounts = y.took.accounts;
            kept = λ a b.
                y.took.kept a (omega (arith, count-append a (pages c.links) used)) ∙ c.kept a b;
            reserved = y.took.reserved ∙ c.reserved;
          })))
  where
    chunk : List ℕ
    chunk = take overflow_chunk (drop (chunks * overflow_chunk) value)

    size : (0 < length chunk) × (length chunk ≤ overflow_chunk)
    size = (
      omega (
        arith,
        length-take overflow_chunk (drop (chunks * overflow_chunk) value),
        length-drop (chunks * overflow_chunk) value,
      ),
      omega (arith, length-take overflow_chunk (drop (chunks * overflow_chunk) value)),
    )

    behind : (n : ℕ) → suc n * overflow_chunk ≡ n * overflow_chunk + overflow_chunk
    behind n = omega arith

    whole : chunk ++ text c.links ≡ drop (chunks * overflow_chunk) value
    whole =
        ap (λ r. chunk ++ r)
          (c.holds
            ∙ ap (λ i. drop i value) (behind chunks)
            ∙ sym (drop-drop overflow_chunk (chunks * overflow_chunk) value))
        ∙ take-append-drop overflow_chunk (drop (chunks * overflow_chunk) value)

drop_all : (n : ℕ) (xs : List ℕ) → length xs ≤ n → drop n xs ≡ []
drop_all zero [] l = refl
drop_all zero (x ∷ xs) l = absurd (omega arith)
drop_all (suc n) [] l = refl
drop_all (suc n) (x ∷ xs) l = drop_all n xs (omega arith)

write_overflow-Chained :
    (s : Pages) (value : List ℕ) (used : List ℕ)
    → 0 < s.pager.reserved
    → Accounts s.pager used
    → 0 < length value
    → Does (write_overflow value) s (Chained s used value) IsRefusal
unfolding write_overflow
write_overflow-Chained s value used pos h l =
    write_chunks-Chained ((length value - 1) / overflow_chunk + 1) value used s s 0 pos
      (omega arith)
      (record {
        links = [];
        linked = refl;
        holds = sym (
            drop_all (((length value - 1) / overflow_chunk + 1) * overflow_chunk) value
              (omega arith));
        accounts = h;
        kept = λ a c. refl;
        reserved = refl;
      })

-- The loop of load gathers what the chain holds.
load_loop-Linked :
    (fuel total head : ℕ) (links : Links) (value : List ℕ) (s : Pages)
    → Linked s head links
    → length links < fuel
    → length value + length (text links) ≡ total
    → load_loop fuel total head value s ≡ (ok (value ++ text links), s)
unfolding load_loop
load_loop-Linked zero total head links value s h f e = absurd (omega arith)
load_loop-Linked (suc fuel) total head [] value s h f e =
    rw (h, full) (ap (λ v. (ok v, s)) (sym (append-nil value)))
  where
    full : (length value == total) ≡ true
    full = ground arith
load_loop-Linked (suc fuel) total head ((id, chunk) ∷ links) value s (p, q, r, next, h, l) f e =
    rw (p, not_zero, read-Holds s id (blob_page next chunk) h, fine)
      (load_loop-Linked fuel total next links (value ++ chunk) s l (omega arith) longer
        ∙ ap (λ v. (ok v, s)) (append_assoc value chunk (text links)))
  where
    not_zero : (id == 0) ≡ false
    not_zero = ground (arith, h.0)

    fine :
        (length chunk == 0
          || ltb overflow_chunk (length chunk)
          || ltb total (length value + length chunk))
        ≡ false
    fine = ground (arith, length-append chunk (text links))

    longer : length (value ++ chunk) + length (text links) ≡ total
    longer = omega (arith, length-append value chunk, length-append chunk (text links))

short_chain :
    (links : Links) (head : ℕ) (s : Pages)
    → Linked s head links
    → length links ≤ length (text links)
short_chain [] head s h = omega arith
short_chain ((id, chunk) ∷ links) head s (p, q, r, next, h, l) =
    omega (arith, length-append chunk (text links), short_chain links next s l)

Linked-free :
    (s : Pages) (id : ℕ) (links : Links) (head : ℕ)
    → Linked s head links
    → Linked (record s { pager = free s.pager id }) head links
Linked-free s id [] head h = h
Linked-free s id ((a, chunk) ∷ links) head (p, q, r, next, h, l) = (
  p,
  q,
  r,
  next,
  (h.0, rw (free-FreeKept s.pager id).meta h.1, h.2),
  Linked-free s id links next l,
)

-- The loop of release gives every page of the chain back.
pub release_loop-Linked :
    (fuel head : ℕ) (links : Links) (s : Pages) (used : List ℕ)
    → Linked s head links
    → length links < fuel
    → Accounts s.pager (pages links ++ used)
    → Does
        (release_loop fuel head)
        s
        (λ v t. Accounts t.pager used × (t.page_at ≡ s.page_at))
        (λ e. 0 < 0)
unfolding release_loop give_page
release_loop-Linked zero head links s used h f c = absurd (omega arith)
release_loop-Linked (suc fuel) head [] s used h f c = rw h (c, refl)
release_loop-Linked (suc fuel) head ((id, chunk) ∷ links) s used (p, q, r, next, h, l) f c =
    rw (not_zero, read-Holds s head (blob_page next chunk) (rw p h))
      (release_loop-Linked fuel next links (record s { pager = free s.pager head }) used
        (Linked-free s head links next l) (omega arith)
        (Accounts-count (pages links ++ used)
          (λ a. ground (arith, count-erase a head (head ∷ pages links ++ used)))
          (free-Accounts (given p c) head (ground arith))))
  where
    not_zero : (head == 0) ≡ false
    not_zero = ground (arith, h.0)

    given :
        head ≡ id
        → Accounts s.pager (id ∷ pages links ++ used)
        → Accounts s.pager (head ∷ pages links ++ used)
    given e k = rw e k

-- An entry that stands for a value: beside its key, or by a chain of pages.
pub record StandsFor (s : Pages) (used key value : List ℕ) (e : Kv) (t : Pages) : Type 0 where
  pub named : e.key ≡ key
  pub links : Links
  pub linked : Linked t e.head links
  pub beside : e.head ≡ 0 → e.value ≡ value
  pub chained : 0 < e.head → (e.length ≡ length value) × (text links ≡ value)
  pub accounts : Accounts t.pager (pages links ++ used)
  pub kept : (a : ℕ) → 0 < count a used → t.page_at a ≡ s.page_at a

head-pos :
    (s : Pages) (head : ℕ) (links : Links)
    → Linked s head links
    → 0 < length (text links)
    → 0 < head
head-pos s head [] h l = absurd (omega arith)
head-pos s head ((id, chunk) ∷ links) (p, q, r, next, h, k) l = omega (arith, p, h.0)

store-StandsFor :
    (s : Pages) (key value used : List ℕ)
    → 0 < s.pager.reserved
    → Accounts s.pager used
    → Does (store key value) s (StandsFor s used key value) IsRefusal
unfolding store
store-StandsFor s key value used pos h = elim (Bool-cases (leb (length value) max_inline)) [
  | inl p ↦ rw p (record {
    named = refl;
    links = [];
    linked = refl;
    beside = λ z. refl;
    chained = λ z. absurd (omega arith);
    accounts = h;
    kept = λ a c. refl;
  })
  | inr p ↦ rw p (
      bind-Does (write_overflow value) _ s (Chained s used value) (StandsFor s used key value)
        IsRefusal (write_overflow-Chained s value used pos h (ground arith))
        (λ head t c. record {
          named = refl;
          links = c.links;
          linked = c.linked;
          beside = λ z.
              absurd (
                omega
                  (arith, head-pos t head c.links c.linked (ground (arith, ap length c.holds))));
          chained = λ z. (refl, c.holds);
          accounts = c.accounts;
          kept = c.kept;
        }))
]

load-StandsFor :
    (s : Pages) (used key value : List ℕ) (e : Kv) (t : Pages)
    → StandsFor s used key value e t
    → load e t ≡ (ok value, t)
unfolding load overflows
load-StandsFor s used key value e t h = elim (Bool-cases (e.head == 0)) [
  | inl p ↦ rw p (ap (λ v. (ok v, t)) (h.beside (ground arith)))
  | inr p ↦
      let c = h.chained (ground arith) in
      rw p (
        load_loop-Linked (suc (suc e.length)) e.length e.head h.links [] t h.linked
          (omega (arith, short_chain h.links e.head t h.linked, c.0, ap length c.1))
          (omega (arith, c.0, ap length c.1))
        ∙ ap (λ v. (ok v, t)) c.1)
]

-- What store writes of a value, beside its key or in a chain of pages, load reads back, and the
-- rounds of the model's loop are enough; the pages in `used` keep what they held. If store fails,
-- the file has no room or a write failed.
pub load-store :
    (s : Pages) (key value used : List ℕ)
    → 0 < s.pager.reserved
    → Accounts s.pager used
    → Does
        (store key value)
        s
        (λ e t.
          (e.key ≡ key)
          × (load e t ≡ (ok value, t))
          × ((a : ℕ) → 0 < count a used → t.page_at a ≡ s.page_at a))
        IsRefusal
load-store s key value used pos h =
    map_Spec (StandsFor s used key value) _ IsRefusal _ _
      (λ e t c. (c.named, load-StandsFor s used key value e t c, c.kept))
      (store-StandsFor s key value used pos h)

-- Whatever pages store took for a value, release gives back: behind the two the accounts of the
-- pages in use are as they were, and release does not fail.
pub release-store :
    (s : Pages) (key value used : List ℕ)
    → 0 < s.pager.reserved
    → Accounts s.pager used
    → Does
        (store key value)
        s
        (λ e t. Does (release (suc (length value)) e) t (λ v u. Accounts u.pager used) (λ x. 0 < 0))
        IsRefusal
unfolding release overflows
release-store s key value used pos h =
    map_Spec (StandsFor s used key value) _ IsRefusal _ _ (λ e t c. given_up e t c)
      (store-StandsFor s key value used pos h)
  where
    none_left :
        (t : Pages) (links : Links)
        → Linked t 0 links
        → Accounts t.pager (pages links ++ used)
        → Accounts t.pager used
    none_left t [] l a = a
    none_left t ((id, chunk) ∷ links) (p, q, r, next, k, l) a = absurd (omega (arith, p, k.0))

    given_up :
        (e : Kv) (t : Pages)
        → StandsFor s used key value e t
        → Does (release (suc (length value)) e) t (λ v u. Accounts u.pager used) (λ x. 0 < 0)
    given_up e t c = elim (Bool-cases (e.head == 0)) [
      | inl p ↦ rw p (none_left t c.links (rw (zero_head p) at (c.linked)) c.accounts)
      | inr p ↦ rw p (
          map_Spec (λ v u. Accounts u.pager used × (u.page_at ≡ t.page_at))
            (λ v u. Accounts u.pager used) (λ x. 0 < 0) _ _ (λ v u k. k.0)
            (release_loop-Linked (suc (length value)) e.head c.links t used c.linked
              (omega (
                arith,
                short_chain c.links e.head t c.linked,
                ap length ((c.chained (ground arith)).1),
              ))
              c.accounts))
    ]
      where
        zero_head : (e.head == 0) ≡ true → e.head ≡ 0
        zero_head z = ground arith
