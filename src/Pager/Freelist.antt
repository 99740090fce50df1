-- ===== src/Pager/Freelist.antt =====
-- The page accounting of internal/pager: Allocate, Dirty and Pending of pager.go, and freelist.go.
-- A Go map is an association list, a set of pages a list of them, in an order of its own.
use sapedb.Base.{
  ℕ, ◌+◌, ◌-◌, Bool, true, false, not, ◌&&◌, ◌||◌, List, [], ◌∷◌, ◌++◌, length, ltb, leb, ◌==◌,
  if◌then◌else◌, Result, ok, err,
}
use sapedb.Base.Ids.{has, without}

pub data Error : Type 0 where
  quota led not_led read_only_page bad_freelist file_error : Error
  not_sapedb bad_format no_meta bad_checksum bad_kind out_of_range truncated : Error
  -- No error of Go's: a loop of the model ran out of rounds.
  stuck : Error

pub record Meta : Type 0 where
  pub tx_id : ℕ
  pub root : ℕ
  pub freelist : ℕ
  pub page_count : ℕ
  pub clean : Bool

-- `ready`, `pending`, `freeing`, `seen` and `chain` are the fields of the freelist; the last of
-- `ready` is the one that is handed out next.
pub record Pager : Type 0 where
  pub meta : Meta
  pub max_pages : ℕ
  pub committed : ℕ
  pub taken : List ℕ
  pub ready : List ℕ
  pub pending : List (ℕ × List ℕ)
  pub freeing : List ℕ
  pub seen : List ℕ
  pub chain : List ℕ
  pub readers : List (ℕ × ℕ)
  pub reserved : ℕ
  pub next_meta : ℕ
  pub is_led : Bool

-- `newPager`, and what `Create` and `CreateLed` make of it once the file took the first pages.
unfoldable pub new_pager : ℕ → Meta → ℕ → Bool → Pager
new_pager max_pages meta reserved is_led = record {
  meta = meta;
  max_pages = max_pages;
  committed = meta.page_count;
  taken = [];
  ready = [];
  pending = [];
  freeing = [];
  seen = [];
  chain = [];
  readers = [];
  reserved = reserved;
  next_meta = 0;
  is_led = is_led;
}

unfoldable pub create : ℕ → Pager
create max_pages =
    new_pager max_pages
      (record { tx_id = 1; root = 0; freelist = 0; page_count = 2; clean = false }) 2 false

unfoldable pub create_led : ℕ → Pager
create_led max_pages =
    new_pager max_pages
      (record { tx_id = 1; root = 0; freelist = 0; page_count = 1; clean = false }) 1 true

-- `m[k]`, the zero value where there is no entry.
unfoldable pub pending_at : List (ℕ × List ℕ) → ℕ → List ℕ
pending_at [] k = []
pending_at ((j, ids) ∷ m) k = if j == k then ids else pending_at m k

-- `delete(m, k)`; a map has one entry of a key at most.
unfoldable pub delete_pending : List (ℕ × List ℕ) → ℕ → List (ℕ × List ℕ)
delete_pending [] k = []
delete_pending ((j, ids) ∷ m) k = if j == k then m else (j, ids) ∷ delete_pending m k

-- `m[k] = append(m[k], ids...)`
unfoldable pub append_pending : List (ℕ × List ℕ) → ℕ → List ℕ → List (ℕ × List ℕ)
append_pending [] k ids = (k, ids) ∷ []
append_pending ((j, js) ∷ m) k ids =
    if j == k then (j, js ++ ids) ∷ m else (j, js) ∷ append_pending m k ids

unfoldable pub total_pending : List (ℕ × List ℕ) → ℕ
total_pending [] = 0
total_pending ((j, ids) ∷ m) = length ids + total_pending m

-- `count`
unfoldable pub free_count : Pager → ℕ
free_count p = length p.ready + total_pending p.pending

unfoldable pub dirty : Pager → ℕ → Bool
dirty p id = leb p.committed id || has id p.taken

unfoldable pub free : Pager → ℕ → Pager
free p id =
    if ltb id p.reserved || has id p.seen
    then p
    else if dirty p id
    then record p { seen = id ∷ p.seen; ready = p.ready ++ (id ∷ []) }
    else record p { seen = id ∷ p.seen; freeing = p.freeing ++ (id ∷ []) }

-- `readers[txid]`, and `readers[txid] = n`.
unfoldable pub readers_at : List (ℕ × ℕ) → ℕ → ℕ
readers_at [] t = 0
readers_at ((j, n) ∷ m) t = if j == t then n else readers_at m t

unfoldable pub set_readers : List (ℕ × ℕ) → ℕ → ℕ → List (ℕ × ℕ)
set_readers [] t n = (t, n) ∷ []
set_readers ((j, k) ∷ m) t n = if j == t then (j, n) ∷ m else (j, k) ∷ set_readers m t n

unfoldable pub delete_readers : List (ℕ × ℕ) → ℕ → List (ℕ × ℕ)
delete_readers [] t = []
delete_readers ((j, k) ∷ m) t = if j == t then m else (j, k) ∷ delete_readers m t

pub record Snapshot : Type 0 where
  pub tx_id : ℕ
  pub root : ℕ

unfoldable pub snapshot : Pager → Pager × Snapshot
snapshot p = (
  record p { readers = set_readers p.readers p.meta.tx_id (readers_at p.readers p.meta.tx_id + 1) },
  record { tx_id = p.meta.tx_id; root = p.meta.root },
)

-- `Release`, the first time it is called; afterwards the snapshot has no pager and it does nothing.
unfoldable pub release : Pager → Snapshot → Pager
release p s =
    if leb (readers_at p.readers s.tx_id) 1
    then record p { readers = delete_readers p.readers s.tx_id }
    else record p { readers = set_readers p.readers s.tx_id (readers_at p.readers s.tx_id - 1) }

-- The loop of `oldestHeld` over the keys.
unfoldable pub oldest_loop : ℕ → List (ℕ × ℕ) → ℕ
oldest_loop oldest [] = oldest
oldest_loop oldest ((t, n) ∷ m) = oldest_loop (if oldest == 0 || ltb t oldest then t else oldest) m

unfoldable pub oldest_held : Pager → ℕ
oldest_held p = oldest_loop 0 p.readers

-- `sort.Slice` of the transactions, ascending.
unfoldable pub insert_sorted : ℕ → List ℕ → List ℕ
insert_sorted t [] = t ∷ []
insert_sorted t (u ∷ us) = if ltb u t then u ∷ insert_sorted t us else t ∷ u ∷ us

unfoldable pub transactions : List (ℕ × List ℕ) → List ℕ
transactions [] = []
transactions ((t, ids) ∷ m) = insert_sorted t (transactions m)

-- One round of the loop of `promote`.
unfoldable pub promote_one : ℕ → Pager → ℕ → Pager
promote_one oldest p t =
    if ltb p.meta.tx_id t then p else if not (oldest == 0) && ltb oldest t then p else record p {
      ready = p.ready ++ pending_at p.pending t;
      pending = delete_pending p.pending t;
    }

unfoldable pub promote_loop : ℕ → Pager → List ℕ → Pager
promote_loop oldest p [] = p
promote_loop oldest p (t ∷ ts) = promote_loop oldest (promote_one oldest p t) ts

unfoldable pub promote : Pager → Pager
promote p =
    if length p.pending == 0 then p else promote_loop (oldest_held p) p (transactions p.pending)

-- The last of a list and what stands before it: `ready[last]`, `ready[:last]`.
unfoldable pub last_of : ℕ → List ℕ → ℕ
last_of x [] = x
last_of x (y ∷ ys) = last_of y ys

unfoldable pub but_last : ℕ → List ℕ → List ℕ
but_last x [] = []
but_last x (y ∷ ys) = x ∷ but_last y ys

-- A page at the end of the file, and the last one that is ready.
unfoldable pub grow : Pager → Pager
grow p = record p {
  meta = record p.meta { page_count = p.meta.page_count + 1 };
  taken = p.meta.page_count ∷ p.taken;
}

unfoldable pub reuse : Pager → ℕ → List ℕ → Pager
reuse p x xs = record p {
  ready = but_last x xs;
  taken = last_of x xs ∷ p.taken;
  seen = without (last_of x xs) p.seen;
}

-- `Allocate` behind `promote`, by the list that is ready.
unfoldable pub hand_out : Pager → List ℕ → Result Error ℕ × Pager
hand_out p [] =
    if ltb 0 p.max_pages && leb p.max_pages p.meta.page_count
    then (err quota, p)
    else (ok p.meta.page_count, grow p)
hand_out p (x ∷ xs) = (ok (last_of x xs), reuse p x xs)

unfoldable pub allocate : Pager → Result Error ℕ × Pager
allocate p = let q = promote p in hand_out q q.ready

unfoldable pub has_pending : Pager → Bool
has_pending p = ltb 0 (length p.taken) || ltb 0 (length p.freeing)
