-- ===== src/Btree/Keeps.antt =====
-- Laws of the code that works on pages: its chains of calls, and calls that change nothing.
use sapedb.Base.{
  ℕ, zero, suc, ◌≡◌, refl, ◌∙◌, Bool, true, false, not, List, length, ◌++◌, [], ◌==◌, if◌then◌else◌,
  Result, ok, err, arith,
}
use sapedb.Btree.Node
use sapedb.Btree.Node.{Kv, broken_chain, overflows}
use sapedb.Btree.Pages.{
  Fault, leaf_page, branch_page, blob_page, other_page, Pages, Act, after, ◌>>=◌, ◌>>◌, read,
}
use sapedb.Btree.Overflow.{load, load_loop}
use sapedb.Btree.Tree.{checked}

after_assoc :
    {A B C : Type 0} (f : A → Act B) (g : B → Act C) (r : Result Fault A) (s : Pages)
    → after g (after f r s).0 (after f r s).1 ≡ after (λ v. f v >>= g) r s
after_assoc f g (ok v) s = refl
after_assoc f g (err e) s = refl

pub bind_assoc :
    {A B C : Type 0} (call : Act A) (f : A → Act B) (g : B → Act C) (s : Pages)
    → ((call >>= f) >>= g) s ≡ (call >>= λ v. f v >>= g) s
bind_assoc call f g s = after_assoc f g (call s).0 (call s).1

after-congr :
    {A B : Type 0} (f g : A → Act B) (r : Result Fault A) (s : Pages)
    → ((v : A) → r ≡ ok v → f v s ≡ g v s)
    → after f r s ≡ after g r s
after-congr f g (ok v) s h = h v refl
after-congr f g (err e) s h = refl

-- Two ways to go on that do the same do the same behind a call.
pub bind_congr :
    {A B : Type 0} (call : Act A) (f g : A → Act B) (s : Pages)
    → ((v : A) → (call s).0 ≡ ok v → f v (call s).1 ≡ g v (call s).1)
    → (call >>= f) s ≡ (call >>= g) s
bind_congr call f g s h = after-congr f g (call s).0 (call s).1 h

abbrev pub Keeps : {A : Type 0} → Act A → Type 0
Keeps call = (s : Pages) → (call s).1 ≡ s

after-Keeps :
    {A B : Type 0} (next : A → Act B) (r : Result Fault A) (s t : Pages)
    → t ≡ s
    → ((v : A) → Keeps (next v))
    → (after next r t).1 ≡ s
after-Keeps next (ok v) s t p h = h v t ∙ p
after-Keeps next (err e) s t p h = p

pub bind-Keeps :
    {A B : Type 0} (call : Act A) (next : A → Act B)
    → Keeps call
    → ((v : A) → Keeps (next v))
    → Keeps (call >>= next)
bind-Keeps call next h k s = after-Keeps next (call s).0 s (call s).1 (h s) k

pub if-Keeps :
    {A : Type 0} (test : Bool) (call other : Act A)
    → Keeps call
    → Keeps other
    → Keeps (if test then call else other)
if-Keeps true call other h k s = h s
if-Keeps false call other h k s = k s

pub read-Keeps : (id : ℕ) → Keeps (read id)
unfolding read
read-Keeps id s = ground arith

load_loop-Keeps : (fuel total id : ℕ) (value : List ℕ) → Keeps (load_loop fuel total id value)
unfolding load_loop
load_loop-Keeps zero total id value = λ s. refl
load_loop-Keeps (suc fuel) total id value =
    if-Keeps (id == 0) _ _ (if-Keeps (length value == total) _ _ (λ s. refl) (λ s. refl)) (
      bind-Keeps (read id) _ (read-Keeps id) (elim [
        | blob_page next chunk ↦
            if-Keeps _ _ _ (λ s. refl) (load_loop-Keeps fuel total next (value ++ chunk))
        | leaf_page entries ↦ λ s. refl
        | branch_page node ↦ λ s. refl
        | other_page kind ↦ λ s. refl
      ]))

-- Loading a value changes nothing.
pub load-Keeps : (e : Kv) → Keeps (load e)
unfolding load
load-Keeps e =
    if-Keeps (not (overflows e)) _ _ (λ s. refl)
      (load_loop-Keeps (suc (suc e.length)) e.length e.head [])

-- Behind the same check, two ways to go on that do the same.
pub checked-congr :
    {B : Type 0} (c : Result Node.Error (Unit {0})) (f g : Act B) (s : Pages)
    → f s ≡ g s
    → (checked c >> f) s ≡ (checked c >> g) s
unfolding checked
checked-congr (ok v) f g s h = h
checked-congr (err e) f g s h = refl
