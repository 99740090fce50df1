-- ===== src/Btree/LoadTotal.antt =====
-- load of internal/btree/tree.go on whatever the file holds.
use sapedb.Base.{ℕ, ◌<◌, Result, ok, err}
use sapedb.Btree.Pages.{Fault, of_node, of_pager, stuck, panic, bad_namespace, damaged, Page, Pages}

-- An error that the code answers.
abbrev pub IsError : Fault → Type 0
IsError (of_node e) = Unit
IsError (of_pager e) = Unit
IsError stuck = 0 < 0
IsError panic = 0 < 0
IsError bad_namespace = 0 < 0
IsError damaged = 0 < 0

abbrev pub IsAnswer : Result Fault Page → Type 0
IsAnswer (ok page) = Unit
IsAnswer (err e) = IsError e

-- Reading a page of the file ends, with a page or an error.
abbrev pub Readable : Pages → Type 0
Readable s = (id : ℕ) → IsAnswer (s.page_at id)
