-- ===== src/Store/Claims.antt =====
-- claimFor of internal/store/namespace.go over the tree of internal/btree.
use sapedb.Base.{ℕ, suc, ◌≤◌, ◌<◌, ◌≡◌, ◌⊎◌, Option, some, List, length, if◌then◌else◌, ok, err}
use sapedb.Btree.Node.{check_key, max_inline}
use sapedb.Btree.Leaf.{find}
use sapedb.Btree.Pages.{Fault, bad_namespace, damaged, Pages}
use sapedb.Btree.Shape.{Tree}
use sapedb.Btree.Whole.{height, content, Sound}
use sapedb.Btree.PutGet.{value_of}
use sapedb.Btree.Writes.{IsRefusal}
use sapedb.Store.Namespace.{Claim, Caller, holder, same, claim_key, split_operation_name, claim_for}

-- Why a declaration into a namespace is refused.
abbrev pub IsDenied : Fault → Type 0
IsDenied e = IsRefusal e ⊎ ((e ≡ bad_namespace) ⊎ (e ≡ damaged))

module _ (marshal : Claim → List ℕ) (unmarshal : List ℕ → Option Claim) where
  module _ (s : Pages) (fuel : ℕ) (o : Option Tree) (rest : List ℕ) (h : Sound s o rest)
      (ns : List ℕ) (named : 0 < length ns) (fits : check_key (claim_key ns) ≡ ok tt)
      (low : height o ≤ fuel) (caller caller' : Caller) (name' local' : List ℕ)
      (split' : split_operation_name name' ≡ ok (ns, local'))
      (back : unmarshal (marshal (holder ns caller)) ≡ some (holder ns caller))
      (short : length (marshal (holder ns caller)) ≤ max_inline) where
    -- What a second declaration is answered, once the first caller has the namespace.
    abbrev Closed : ℕ → Pages → Type 0
    Closed r u =
        claim_for marshal unmarshal (suc fuel) r caller' name' u
        ≡ ((if same (holder ns caller) (holder ns caller') then ok r else err bad_namespace), u)

    before : Option (List ℕ)
    before = value_of (find (content o) (claim_key ns))
