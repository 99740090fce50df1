-- ===== src/Store/Tests.antt =====
-- Names and namespaces of internal/store.
use sapedb.Base.{
  ℕ, ◌≡◌, refl, true, Option, none, some, List, [], ◌∷◌, ◌++◌, length, take, drop, ◌==◌,
  if◌then◌else◌, ok, err, arith,
}
use sapedb.Btree.Pages.{Pages, of_pager, bad_namespace, every}
use sapedb.Pager.Freelist.{create, bad_checksum}
use sapedb.Store.Namespace.{
  Claim, ClaimKind, by_key, by_actor, split_operation_name, checked_halves, cut_name, has_separator,
  usable_namespace_byte,
}
use sapedb.Store.Budget.{Spent, spend, spend_written, spend_all, spend_all-Spent, too_large}
use sapedb.Base.Int.{pos}
use sapedb.Store.Partition.{
  check_partition, check_division, check_hash, expired, expired_by, expired_past, by_hash, by_time,
  no_period, every_month, too_few,
}

-- "a:b", "a:b:c" and ":b".
split_two : split_operation_name (97 ∷ 58 ∷ 98 ∷ []) ≡ ok (97 ∷ [], 98 ∷ [])
unfolding split_operation_name checked_halves cut_name has_separator usable_namespace_byte every
split_two = refl

split_three : split_operation_name (97 ∷ 58 ∷ 98 ∷ 58 ∷ 99 ∷ []) ≡ err bad_namespace
unfolding split_operation_name checked_halves cut_name has_separator
split_three = refl

split_empty : split_operation_name (58 ∷ 98 ∷ []) ≡ err bad_namespace
unfolding split_operation_name checked_halves cut_name has_separator
split_empty = refl

-- A coding of claims in place of JSON.
abbrev kind_byte : ClaimKind → ℕ
kind_byte by_key = 0
kind_byte by_actor = 1

abbrev written : Claim → List ℕ
written c = kind_byte c.kind ∷ length c.namespace ∷ (c.namespace ++ c.identity)

abbrev read_back : List ℕ → Option Claim
read_back (k ∷ n ∷ bytes) = some (record {
  namespace = take n bytes;
  kind = if k == 0 then by_key else by_actor;
  identity = drop n bytes;
})
read_back _ = none

abbrev empty_pages : Pages
empty_pages = record {
  pager = create 0;
  page_at = λ id. err (of_pager bad_checksum);
  writable = λ id. true;
}

-- Two rows of two bytes under a limit of five: the second does not fit.
spend_all-Spent_example :
    Spent
      (record { most = 5; used = 0; rows = 0 })
      (some (1 ∷ 2 ∷ []) ∷ some (3 ∷ 4 ∷ []) ∷ [])
      (spend_all
        (some (record { most = 5; used = 0; rows = 0 }))
        (some (1 ∷ 2 ∷ []) ∷ some (3 ∷ 4 ∷ []) ∷ []))
spend_all-Spent_example =
    spend_all-Spent (record { most = 5; used = 0; rows = 0 })
      (some (1 ∷ 2 ∷ []) ∷ some (3 ∷ 4 ∷ []) ∷ []) (omega arith) (omega arith)

spend_too_much :
    spend_all
      (some (record { most = 5; used = 0; rows = 0 }))
      (some (1 ∷ 2 ∷ []) ∷ some (3 ∷ 4 ∷ []) ∷ [])
    ≡ err too_large
unfolding spend_all spend spend_written
spend_too_much = refl

-- A hash over one partition is refused, and of three months the last two are kept.
hash_of_one :
    check_partition
      (record { by = by_hash; every = no_period; keep = pos 0; into = pos 1 })
      (record { is_string = true; is_ulid = true })
    ≡ err too_few
unfolding check_partition check_division check_hash
hash_of_one = refl

oldest_due :
    expired
      (record { by = by_time; every = every_month; keep = pos 2; into = pos 0 })
      ((1 ∷ []) ∷ (2 ∷ []) ∷ (3 ∷ []) ∷ [])
    ≡ (1 ∷ []) ∷ []
unfolding expired expired_by expired_past
oldest_due = refl
