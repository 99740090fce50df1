-- ===== src/Btree/Overflow.antt =====
-- Values out of line, of internal/btree/tree.go: store, writeOverflow, load and release.
use sapedb.Base.{
  ℕ, zero, suc, ◌+◌, ◌-◌, ◌*◌, ◌/◌, not, ◌||◌, List, [], ◌++◌, length, take, drop, ltb, leb, ◌==◌,
  if◌then◌else◌, ok,
}
use sapedb.Btree.Node.{Kv, broken_chain, capacity_bytes, max_inline, overflows}
use sapedb.Btree.Pages.{
  of_node, stuck, leaf_page, branch_page, blob_page, other_page, Act, ◌>>=◌, ◌>>◌, done, fail, read,
  write, take_page, give_page,
}

abbrev pub overflow_header : ℕ
overflow_header = 12

abbrev pub overflow_chunk : ℕ
overflow_chunk = capacity_bytes - overflow_header

-- The loop of `writeOverflow`, with `chunks` chunks at the front of the value left to write.
unfoldable pub write_chunks : ℕ → List ℕ → ℕ → Act ℕ
write_chunks zero value next = done next
write_chunks (suc chunks) value next = do
  id ← take_page
  write id (ok (blob_page next (take overflow_chunk (drop (chunks * overflow_chunk) value))))
  write_chunks chunks value id

unfoldable pub write_overflow : List ℕ → Act ℕ
write_overflow value = write_chunks ((length value - 1) / overflow_chunk + 1) value 0

unfoldable pub store : List ℕ → List ℕ → Act Kv
store key value =
    if leb (length value) max_inline
    then done (record { key = key; value = value; head = 0; length = 0 })
    else (do
      head ← write_overflow value
      done (record { key = key; value = []; head = head; length = length value }))

-- The loop of `load`: `value` is what was read of the `total` bytes.
unfoldable pub load_loop : ℕ → ℕ → ℕ → List ℕ → Act (List ℕ)
load_loop zero total id value = fail stuck
load_loop (suc fuel) total id value =
    let more : Act (List ℕ) = read id >>= λ page. elim page [
      | blob_page next chunk ↦
          let longer = load_loop fuel total next (value ++ chunk) in
          if length chunk == 0
            || ltb overflow_chunk (length chunk)
            || ltb total (length value + length chunk)
          then fail (of_node broken_chain)
          else longer
      | leaf_page entries ↦ fail (of_node broken_chain)
      | branch_page node ↦ fail (of_node broken_chain)
      | other_page kind ↦ fail (of_node broken_chain)
    ] in
    if id == 0
    then (if length value == total then done value else fail (of_node broken_chain))
    else more

-- Each round reads a byte or more of the value, or fails.
unfoldable pub load : Kv → Act (List ℕ)
load entry =
    if not (overflows entry)
    then done entry.value
    else load_loop (suc (suc entry.length)) entry.length entry.head []

-- The loop of `release`. It ends where the chain does, and not at all on a chain that comes back to
-- itself.
unfoldable pub release_loop : ℕ → ℕ → Act (Unit {0})
release_loop zero id = fail stuck
release_loop (suc fuel) id =
    let more : Act (Unit {0}) = read id >>= λ page. elim page [
      | blob_page next chunk ↦ give_page id >> release_loop fuel next
      | leaf_page entries ↦ fail (of_node broken_chain)
      | branch_page node ↦ fail (of_node broken_chain)
      | other_page kind ↦ fail (of_node broken_chain)
    ] in
    if id == 0 then done tt else more

unfoldable pub release : ℕ → Kv → Act (Unit {0})
release fuel entry = if not (overflows entry) then done tt else release_loop fuel entry.head
