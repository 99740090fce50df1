-- ===== src/Pager/Crash.antt =====
-- A crash among the calls of a file: of the writes since the last sync any may be lost, and
-- `loadMeta` of internal/pager/pager.go chooses afterwards.
use sapedb.Base.{
  ℕ, ◌-◌, ◌≡◌, refl, Bool, true, false, ◌⊎◌, List, [], ◌∷◌, ◌++◌, ◌==◌, if◌then◌else◌, arith,
  Result, ok, err, All,
}
use sapedb.Pager.Freelist.{Error, Meta}
use sapedb.Pager.Commit.{FileCall, list_page, sync, meta_page}
use sapedb.Pager.Reading.{Disk, kind_free, newer_meta}

-- What a call does to the file, once it has reached it.
abbrev pub apply : Disk → FileCall → Disk
apply d (list_page id page) = record d {
  page_at = λ a. if id == a then ok (record { kind = kind_free; list = page }) else d.page_at a;
}
apply d (meta_page slot meta) = record d {
  meta_at = λ s. if slot == s then ok meta else d.meta_at s;
}
apply d sync = d

abbrev pub replay : Disk → List FileCall → Disk
replay d [] = d
replay d (c ∷ calls) = replay (apply d c) calls

-- The calls that a choice keeps; what it says nothing about is lost.
abbrev pub surviving : List Bool → List FileCall → List FileCall
surviving [] calls = []
surviving (k ∷ ks) [] = []
surviving (k ∷ ks) (c ∷ calls) = let rest = surviving ks calls in if k then c ∷ rest else rest

-- `P` of the file after a crash at any moment of the calls; `open_calls` are those since the last sync.
abbrev pub EveryCrash : (Disk → Type 0) → Disk → List FileCall → List FileCall → Type 0
EveryCrash P d open_calls [] = (ks : List Bool) → P (replay d (surviving ks open_calls))
EveryCrash P d open_calls (sync ∷ calls) =
    ((ks : List Bool) → P (replay d (surviving ks open_calls)))
    × EveryCrash P (replay d open_calls) [] calls
EveryCrash P d open_calls (list_page id page ∷ calls) =
    ((ks : List Bool) → P (replay d (surviving ks open_calls)))
    × EveryCrash P d (open_calls ++ (list_page id page ∷ [])) calls
EveryCrash P d open_calls (meta_page slot meta ∷ calls) =
    ((ks : List Bool) → P (replay d (surviving ks open_calls)))
    × EveryCrash P d (open_calls ++ (meta_page slot meta ∷ [])) calls

abbrev pub choice : Disk → Result Error (Meta × ℕ)
choice d = newer_meta (d.meta_at 0) (d.meta_at 1)

-- What a crash may leave: the file's old choice, or a meta page of the next transaction with every
-- page that was written before it.
abbrev pub Outcome : Disk → List FileCall → Meta → ℕ → Disk → Type 0
Outcome d written new slot after =
    (choice after ≡ choice d)
    ⊎ ((choice after ≡ ok (new, 1 - slot)) × (after.page_at ≡ (replay d written).page_at))

abbrev pub IsListCall : FileCall → Type 0
IsListCall (list_page id page) = Unit
IsListCall (meta_page slot meta) = ⊥
IsListCall sync = ⊥

pub surviving-IsListCall :
    (ks : List Bool) (calls : List FileCall)
    → All IsListCall calls
    → All IsListCall (surviving ks calls)
surviving-IsListCall [] calls h = tt
surviving-IsListCall (k ∷ ks) [] h = tt
surviving-IsListCall (true ∷ ks) (c ∷ calls) (h, hs) = (h, surviving-IsListCall ks calls hs)
surviving-IsListCall (false ∷ ks) (c ∷ calls) (h, hs) = surviving-IsListCall ks calls hs

pub choice-replay :
    (d : Disk) (calls : List FileCall) → All IsListCall calls → choice (replay d calls) ≡ choice d
choice-replay d [] h = refl
choice-replay d (list_page id page ∷ calls) (h, hs) =
    choice-replay (apply d (list_page id page)) calls hs
choice-replay d (meta_page slot meta ∷ calls) (h, hs) = absurd h
choice-replay d (sync ∷ calls) (h, hs) = absurd h

-- Which of the two places holds what was chosen.
pub choice_first : (x y : Result Error Meta) (m : Meta) → newer_meta x y ≡ ok (m, 1) → x ≡ ok m
unfolding newer_meta
choice_first (err e) (err f) m h = ground arith
choice_first (err e) (ok second) m h = cc h
choice_first (ok first) (err f) m h = cc h
choice_first (ok first) (ok second) m h = ground arith

pub choice_second : (x y : Result Error Meta) (m : Meta) → newer_meta x y ≡ ok (m, 0) → y ≡ ok m
unfolding newer_meta
choice_second (err e) (err f) m h = ground arith
choice_second (err e) (ok second) m h = cc h
choice_second (ok first) (err f) m h = cc h
choice_second (ok first) (ok second) m h = ground arith
