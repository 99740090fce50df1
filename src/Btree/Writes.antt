-- ===== src/Btree/Writes.antt =====
-- place, writeLeaf and writeBranch of internal/btree/tree.go: which page they take, and what they
-- leave on it and on the others.
use sapedb.Base.{
  ℕ, ◌+◌, ◌≤◌, ◌<◌, ◌≡◌, refl, ap, ◌∙◌, ◌⊎◌, inl, inr, true, false, List, [], ◌∷◌, length, leb, ltb,
  ◌==◌, if◌then◌else◌, Result, ok, err, arith, Bool-cases,
}
use sapedb.Base.Ids.{count, count-erase}
use sapedb.Btree.Node.{Kv, Branch, cannot_split, capacity_bytes, leaf_bytes, branch_bytes, max_key}
use sapedb.Btree.Pages.{
  Fault, of_node, of_pager, Page, leaf_page, branch_page, Pages, Act, after, ◌>>=◌, ◌>>◌, done,
  place, take_page, give_page, paged, write, overwrite, encoded_leaf, encoded_branch, write_leaf,
  write_branch, every, reads_back,
}
use sapedb.Pager.Freelist.{
  Pager, quota, file_error, allocate, free, dirty, promote, hand_out, grow, reuse,
}
use sapedb.Pager.Counts.{promote-Kept}
use sapedb.Pager.Accounts.{
  Accounts, Answered, allocate-Answered, free-Accounts, free-FreeKept, Accounts-count,
}

-- A call that went well answers what it should, and one that failed has a reason.
abbrev pub Spec :
    {A : Type 0} → (A → Pages → Type 0) → (Fault → Type 0) → Result Fault A → Pages → Type 0
Spec P Q (ok v) t = P v t
Spec P Q (err e) t = Q e

-- A property of a call's result and of the pages then.
abbrev pub Does : {A : Type 0} → Act A → Pages → (A → Pages → Type 0) → (Fault → Type 0) → Type 0
Does call s P Q = Spec P Q (call s).0 (call s).1

after-Does :
    {A B : Type 0} (next : A → Act B) (P : A → Pages → Type 0) (R : B → Pages → Type 0)
    (Q : Fault → Type 0) (r : Result Fault A) (t : Pages)
    → Spec P Q r t
    → ((v : A) (u : Pages) → P v u → Does (next v) u R Q)
    → Spec R Q (after next r t).0 (after next r t).1
after-Does next P R Q (ok v) t h k = k v t h
after-Does next P R Q (err e) t h k = h

pub bind-Does :
    {A B : Type 0} (call : Act A) (next : A → Act B) (s : Pages) (P : A → Pages → Type 0)
    (R : B → Pages → Type 0) (Q : Fault → Type 0)
    → Does call s P Q
    → ((v : A) (t : Pages) → P v t → Does (next v) t R Q)
    → Does (call >>= next) s R Q
bind-Does call next s P R Q h k = after-Does next P R Q (call s).0 (call s).1 h k

-- What may keep a change of a tree from happening: the file may not grow any more, a write of it
-- fails, or a page that is too full is not cut in two.
abbrev pub IsRefusal : Fault → Type 0
IsRefusal e = (e ≡ of_pager quota) ⊎ ((e ≡ of_pager file_error) ⊎ (e ≡ of_node cannot_split))

-- The page that is written again, if any, and pages that are not to change.
abbrev pub owned : ℕ → List ℕ → List ℕ
owned at used = if at == 0 then used else at ∷ used

-- The page `id` was taken, and the pages in `used` are left alone.
pub record Took (s : Pages) (used : List ℕ) (id : ℕ) (t : Pages) : Type 0 where
  pub accounts : Accounts t.pager (id ∷ used)
  pub kept : (a : ℕ) → 0 < count a used → t.page_at a ≡ s.page_at a
  pub reserved : t.pager.reserved ≡ s.pager.reserved

hand_out-reserved : (q : Pager) (l : List ℕ) → (hand_out q l).1.reserved ≡ q.reserved
unfolding hand_out grow reuse
hand_out-reserved q [] = ground arith
hand_out-reserved q (x ∷ xs) = refl

allocate-reserved : (p : Pager) → (allocate p).1.reserved ≡ p.reserved
unfolding allocate
allocate-reserved p = hand_out-reserved (promote p) (promote p).ready ∙ (promote-Kept p).reserved

taken :
    (s : Pages) (used : List ℕ) (r : Result _ ℕ) (q : Pager)
    → Answered s.pager used r q
    → q.reserved ≡ s.pager.reserved
    → Spec (Took s used) IsRefusal (paged r) (record s { pager = q })
taken s used (ok id) q h k = record { accounts = h.2; kept = λ a c. refl; reserved = k }
taken s used (err e) q h k = inl (ap of_pager h.0)

pub take_page-Took :
    (s : Pages) (used : List ℕ) → Accounts s.pager used → Does take_page s (Took s used) IsRefusal
unfolding take_page
take_page-Took s used h =
    taken s used (allocate s.pager).0 (allocate s.pager).1 (allocate-Answered s.pager used h)
      (allocate-reserved s.pager)

-- A page that was given back may be taken again, or another.
given :
    (s : Pages) (at : ℕ) (used : List ℕ)
    → Accounts s.pager (at ∷ used)
    → Does (do give_page at; take_page) s (Took s used) IsRefusal
unfolding give_page
given s at used h = again (take_page t).0 (take_page t).1 (
    take_page-Took t used (
      Accounts-count used (λ a. ground (arith, count-erase a at (at ∷ used)))
        (free-Accounts h at (ground arith))))
  where
    t : Pages
    t = record s { pager = free s.pager at }

    again :
        (r : Result Fault ℕ) (u : Pages)
        → Spec (Took t used) IsRefusal r u
        → Spec (Took s used) IsRefusal r u
    again (ok id) u k = record {
      accounts = k.accounts;
      kept = k.kept;
      reserved = k.reserved ∙ (free-FreeKept s.pager at).reserved;
    }
    again (err e) u k = k

pub place-Took :
    (s : Pages) (at : ℕ) (used : List ℕ)
    → Accounts s.pager (owned at used)
    → Does (place at) s (Took s used) IsRefusal
unfolding place
place-Took s at used h = elim (Bool-cases (at == 0)) [
  | inl p ↦ rw p (take_page-Took s used (rw p at h))
  | inr p ↦ rw p (elim (Bool-cases (dirty s.pager at)) [
    | inl d ↦ rw d (record { accounts = rw p at h; kept = λ a c. refl; reserved = refl })
    | inr d ↦ rw d (given s at used (rw p at h))
  ])
]

-- The page `id` was taken and written.
pub record Wrote (s : Pages) (used : List ℕ) (page : Page) (id : ℕ) (t : Pages) : Type 0 where
  pub took : Took s used id t
  pub holds : t.page_at id ≡ ok page

-- The write of a page that was taken.
pub write-Wrote :
    (s : Pages) (used : List ℕ) (page : Page) (id : ℕ) (t : Pages)
    → Took s used id t
    → Does (write id (ok page)) t (λ v. Wrote s used page id) IsRefusal
unfolding write
write-Wrote s used page id t k = rw inside (elim (Bool-cases (t.writable id)) [
  | inl w ↦ rw w (record {
    took = record { accounts = k.accounts; kept = λ a c. other a c; reserved = k.reserved };
    holds = ground arith;
  })
  | inr w ↦ rw w (inr (inl refl))
])
  where
    inside : ltb id t.pager.reserved ≡ false
    inside = ground (arith, k.accounts.each id)

    other : (a : ℕ) → 0 < count a used → overwrite t.page_at id (ok page) a ≡ s.page_at a
    other a c = elim (Bool-cases (id == a)) [
      | inl p ↦ absurd (ground (arith, k.accounts.each a))
      | inr p ↦ rw p (k.kept a c)
    ]

written :
    (s : Pages) (used : List ℕ) (page : Page) (id : ℕ) (t : Pages)
    → Took s used id t
    → Does (do write id (ok page); done id) t (Wrote s used page) IsRefusal
written s used page id t k =
    bind-Does (write id (ok page)) _ t (λ v. Wrote s used page id) (Wrote s used page) IsRefusal
      (write-Wrote s used page id t k) (λ v u w. w)

-- writeLeaf of entries that fit a page, and that decodeLeaf accepts.
pub write_leaf-Wrote :
    (s : Pages) (at : ℕ) (used : List ℕ) (entries : List Kv)
    → Accounts s.pager (owned at used)
    → leaf_bytes entries ≤ capacity_bytes
    → every reads_back entries ≡ true
    → Does (write_leaf at entries) s (Wrote s used (leaf_page entries)) IsRefusal
unfolding write_leaf encoded_leaf
write_leaf-Wrote s at used entries h fits fine =
    bind-Does (place at) _ s (Took s used) (Wrote s used (leaf_page entries)) IsRefusal
      (place-Took s at used h)
      (λ id t k. rw (below fits, fine) (written s used (leaf_page entries) id t k))
  where
    below : leaf_bytes entries ≤ capacity_bytes → ltb capacity_bytes (leaf_bytes entries) ≡ false
    below l = ground arith

-- writeBranch of a node with a child more than keys.
pub write_branch-Wrote :
    (s : Pages) (at : ℕ) (used : List ℕ) (node : Branch)
    → Accounts s.pager (owned at used)
    → length node.children ≡ length node.keys + 1
    → branch_bytes node ≤ capacity_bytes
    → every (λ key. leb (length key) max_key) node.keys ≡ true
    → Does (write_branch at node) s (Wrote s used (branch_page node)) IsRefusal
unfolding write_branch encoded_branch
write_branch-Wrote s at used node h counts fits fine =
    bind-Does (place at) _ s (Took s used) (Wrote s used (branch_page node)) IsRefusal
      (place-Took s at used h)
      (λ id t k. rw (enough, below, fine) (written s used (branch_page node) id t k))
  where
    below : ltb capacity_bytes (branch_bytes node) ≡ false
    below = ground arith

    enough : (length node.children == length node.keys + 1) ≡ true
    enough = ground arith
