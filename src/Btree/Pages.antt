-- ===== src/Btree/Pages.antt =====
-- What internal/btree/tree.go does with pages: the calls of the pager that it makes, place,
-- writeLeaf and writeBranch. A page is what the decoders of node.go answer about it.
use sapedb.Base.{
  ℕ, ◌+◌, length, [], ◌∷◌, Bool, true, not, ◌&&◌, ◌≡◌, ap, Option, none, some, List, get_elem?, ltb,
  leb, ◌==◌, if◌then◌else◌, Result, ok, err,
}
use sapedb.Pager.Freelist
use sapedb.Pager.Freelist.{
  Pager, out_of_range, bad_checksum, read_only_page, file_error, allocate, free, dirty,
}
use sapedb.Btree.Node
use sapedb.Btree.Node.{
  Kv, Branch, cannot_split, not_a_node, leaf_bytes, branch_bytes, capacity_bytes, malformed,
  bad_counts, max_key, max_value, overflows,
}

-- `stuck` and `panic` are no errors of Go's: a loop of the model ran out of rounds, and an index is
-- out of range. The last two are errors of internal/store, which works on the same pages.
pub data Fault : Type 0 where
  of_node : Node.Error → Fault
  of_pager : Freelist.Error → Fault
  stuck panic : Fault
  bad_namespace damaged : Fault

pub data Page : Type 0 where
  leaf_page : List Kv → Page
  branch_page : Branch → Page
  blob_page : ℕ → List ℕ → Page
  other_page : ℕ → Page

-- The pager of a tree with the pages of its file, and which writes of the file succeed.
pub record Pages : Type 0 where
  pub pager : Pager
  pub page_at : ℕ → Result Fault Page
  pub writable : ℕ → Bool

-- Code that works on the pages and may fail.
abbrev pub Act : Type 0 → Type 0
Act A = Pages → Result Fault A × Pages

abbrev pub done : {A : Type 0} → A → Act A
done v s = (ok v, s)

abbrev pub fail : {A : Type 0} → Fault → Act A
fail e s = (err e, s)

abbrev pub after : {A B : Type 0} → (A → Act B) → Result Fault A → Pages → Result Fault B × Pages
after next (ok v) s = next v s
after next (err e) s = (err e, s)

infixl 5 ◌>>=◌ ◌>>◌
abbrev pub ◌>>=◌ : {A B : Type 0} → Act A → (A → Act B) → Act B
◌>>=◌ call next s = after next (call s).0 (call s).1

abbrev pub ◌>>◌ : {A B : Type 0} → Act A → Act B → Act B
call >> next = call >>= λ _. next

-- A call that succeeded, and one that failed.
pub bind_ok :
    {A B : Type 0} (call : Act A) (next : A → Act B) {v : A} {s t : Pages}
    → call s ≡ (ok v, t)
    → (call >>= next) s ≡ next v t
bind_ok call next p = ap (λ r. after next r.0 r.1) p

pub bind_err :
    {A B : Type 0} (call : Act A) (next : A → Act B) {e : Fault} {s t : Pages}
    → call s ≡ (err e, t)
    → (call >>= next) s ≡ (err e, t)
bind_err call next p = ap (λ r. after next r.0 r.1) p

abbrev pub in_range : {A : Type 0} → Option A → Act A
in_range none = fail panic
in_range (some x) = done x

-- `xs[i]`
unfoldable pub index : {A : Type 0} → List A → ℕ → Act A
index xs i = in_range (get_elem? xs i)

pub index-some :
    {A : Type 0} (xs : List A) (i : ℕ) {x : A} (s : Pages)
    → get_elem? xs i ≡ some x
    → index xs i s ≡ (ok x, s)
unfolding index
index-some xs i s p = ap (λ o. in_range o s) p

-- `Read`, and what the page decodes to.
unfoldable pub read : ℕ → Act Page
read id s =
    if leb s.pager.meta.page_count id then (err (of_pager out_of_range), s) else (s.page_at id, s)

-- What is left of a page whose write failed does not read back.
abbrev pub overwrite : (ℕ → Result Fault Page) → ℕ → Result Fault Page → ℕ → Result Fault Page
overwrite pages id page a = if id == a then page else pages a

unfoldable pub write : ℕ → Result Fault Page → Act (Unit {0})
write id page s =
    if ltb id s.pager.reserved
    then (err (of_pager read_only_page), s)
    else if s.writable id
    then (ok tt, record s { page_at = overwrite s.page_at id page })
    else (
      err (of_pager file_error),
      record s { page_at = overwrite s.page_at id (err (of_pager bad_checksum)) },
    )

-- `Allocate` and `Free`
abbrev pub paged : {A : Type 0} → Result Freelist.Error A → Result Fault A
paged (ok v) = ok v
paged (err e) = err (of_pager e)

unfoldable pub take_page : Act ℕ
take_page s = (paged (allocate s.pager).0, record s { pager = (allocate s.pager).1 })

unfoldable pub give_page : ℕ → Act (Unit {0})
give_page id s = (ok tt, record s { pager = free s.pager id })

-- `place`: the page itself if this transaction may write it again, and a fresh one otherwise.
unfoldable pub place : ℕ → Act ℕ
place at s =
    let fresh = (do give_page at; take_page) s in
    if at == 0 then take_page s else if dirty s.pager at then (ok at, s) else fresh

-- The checks that `decodeLeaf` and `decodeBranch` make on what the encoders can have written.
unfoldable pub reads_back : Kv → Bool
reads_back e =
    leb (length e.key) max_key
    && (if overflows e
        then leb e.length max_value && ltb 1 e.head
        else leb (length e.value) capacity_bytes)

unfoldable pub every : {A : Type 0} → (A → Bool) → List A → Bool
every test [] = true
every test (x ∷ xs) = test x && every test xs

-- `encodeLeaf` and `encodeBranch`, and what the decoders say of the page then.
unfoldable pub encoded_leaf : List Kv → Act (Result Fault Page)
encoded_leaf entries =
    if ltb capacity_bytes (leaf_bytes entries)
    then fail (of_node cannot_split)
    else done (if every reads_back entries then ok (leaf_page entries) else err (of_node malformed))

unfoldable pub encoded_branch : Branch → Act (Result Fault Page)
encoded_branch node =
    if not (length node.children == length node.keys + 1)
    then fail (of_node bad_counts)
    else if ltb capacity_bytes (branch_bytes node)
    then fail (of_node cannot_split)
    else done (
        if every (λ key. leb (length key) max_key) node.keys
        then ok (branch_page node)
        else err (of_node malformed))

-- `writeLeaf` and `writeBranch`
unfoldable pub write_leaf : ℕ → List Kv → Act ℕ
write_leaf at entries = do id ← place at; page ← encoded_leaf entries; write id page; done id

unfoldable pub write_branch : ℕ → Branch → Act ℕ
write_branch at node = do id ← place at; page ← encoded_branch node; write id page; done id
