-- ===== src/Btree/Whole.antt =====
-- Put of internal/btree/tree.go on a tree that may be empty.
use sapedb.Base.{ℕ, ◌≤◌, ◌<◌, ◌≡◌, Option, none, some, List, [], ◌++◌, length, ok, arith}
use sapedb.Base.Ids.{count}
use sapedb.Btree.Node.{Kv, max_key, check_key}
use sapedb.Btree.Pages.{Pages}
use sapedb.Btree.Shape.{Tree, Forest, root, entries, depth, depth_of, Ordered, Stored}
use sapedb.Btree.Plain.{Full, FullAll, Full-depth, FullAll-depth, ids, Plain}
use sapedb.Pager.Accounts.{Accounts}

-- A tree, or none: the page it hangs from, its pages, its entries and its height.
abbrev pub top : Option Tree → ℕ
top none = 0
top (some t) = root t

abbrev pub pages_of : Option Tree → List ℕ
pages_of none = []
pages_of (some t) = ids t

abbrev pub content : Option Tree → List Kv
content none = []
content (some t) = entries t

abbrev pub height : Option Tree → ℕ
height none = 0
height (some t) = depth t

abbrev pub IsTree : Pages → Option Tree → Type 0
IsTree s none = Unit
IsTree s (some t) = Stored s t × Ordered none none t × Plain t × Full (depth t) t

-- A balanced tree in the file, whose pages the accounts hold with those in `rest`.
pub record Sound (s : Pages) (o : Option Tree) (rest : List ℕ) : Type 0 where
  pub positive : 0 < s.pager.reserved
  pub accounts : Accounts s.pager (pages_of o ++ rest)
  pub tree : IsTree s o

-- What is left of a change: a tree at the new root with all the entries.
pub record Holding (s : Pages) (n : ℕ) (all : List Kv) (rest : List ℕ) (r : ℕ) (u : Pages)
    : Type 0 where
  pub now : Option Tree
  pub at : top now ≡ r
  pub sound : Sound u now rest
  pub held : content now ≡ all
  pub low : height now ≤ n
  pub kept : (a : ℕ) → 0 < count a rest → u.page_at a ≡ s.page_at a

-- The entry of a value that stands beside its key.
abbrev pub inline : List ℕ → List ℕ → Kv
inline key value = record { key = key; value = value; head = 0; length = 0 }

pub short_of_check : (key : List ℕ) → check_key key ≡ ok tt → length key ≤ max_key
unfolding check_key
short_of_check key h = ground arith

pub same_depth : (n : ℕ) (t : Tree) → Full n t → Full (depth t) t
same_depth n t h = rw (Full-depth n t h) h

pub same_depths : (n : ℕ) (f : Forest) → FullAll n f → FullAll (depth_of f) f
same_depths n f h = rw (FullAll-depth n f h) h
