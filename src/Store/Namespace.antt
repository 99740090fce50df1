-- ===== src/Store/Namespace.antt =====
-- internal/store/namespace.go: operation names, and who may declare into a namespace. A name is its
-- bytes; what json.Marshal writes of a claim and what json.Unmarshal reads are parameters.
use sapedb.Base.{
  ℕ, Bool, true, false, ◌&&◌, ◌||◌, Option, none, some, List, [], ◌∷◌, length, leb, ◌==◌,
  if◌then◌else◌, Result, ok, err,
}
use sapedb.Base.Lex.{key_eq}
use sapedb.Btree.Pages.{Fault, bad_namespace, damaged, Act, ◌>>=◌, done, fail, every}
use sapedb.Btree.Tree.{get, put}

abbrev pub namespace_separator : ℕ
namespace_separator = 58

abbrev pub space_claims : ℕ
space_claims = 9

-- `name[:at]` and `name[at+1:]` for the first separator, if there is one.
unfoldable pub cut_name : List ℕ → Option (List ℕ × List ℕ)
cut_name [] = none
cut_name (b ∷ name) = if b == namespace_separator then some ([], name) else (elim (cut_name name) [
  | none ↦ none
  | some (namespace, local) ↦ some (b ∷ namespace, local)
])

-- Whether `strings.IndexByte` finds the separator.
unfoldable pub has_separator : List ℕ → Bool
has_separator [] = false
has_separator (b ∷ name) = b == namespace_separator || has_separator name

unfoldable pub usable_namespace_byte : ℕ → Bool
usable_namespace_byte b =
    (leb 97 b && leb b 122)
    || (leb 65 b && leb b 90)
    || (leb 48 b && leb b 57)
    || (b == 46 || b == 45 || b == 95)

-- `SplitOperationName` behind the search for the first separator.
unfoldable pub checked_halves : List ℕ → Option (List ℕ × List ℕ) → Result Fault (List ℕ × List ℕ)
checked_halves name none = ok ([], name)
checked_halves name (some (namespace, local)) =
    if has_separator local
    then err bad_namespace
    else if length namespace == 0
    then err bad_namespace
    else if length local == 0
    then err bad_namespace
    else if every usable_namespace_byte namespace
    then ok (namespace, local)
    else err bad_namespace

unfoldable pub split_operation_name : List ℕ → Result Fault (List ℕ × List ℕ)
split_operation_name name = checked_halves name (cut_name name)

-- `ClaimedByKey` and `ClaimedByActor`
pub data ClaimKind : Type 0 where
  by_key by_actor : ClaimKind

pub record Claim : Type 0 where
  pub namespace : List ℕ
  pub kind : ClaimKind
  pub identity : List ℕ

-- Of a caller, what `holder` reads.
pub record Caller : Type 0 where
  pub actor : List ℕ
  pub signer : List ℕ

unfoldable pub holder : List ℕ → Caller → Claim
holder namespace caller =
    if length caller.signer == 0
    then record { namespace = namespace; kind = by_actor; identity = caller.actor }
    else record { namespace = namespace; kind = by_key; identity = caller.signer }

unfoldable pub same_kind : ClaimKind → ClaimKind → Bool
same_kind by_key by_key = true
same_kind by_actor by_actor = true
same_kind _ _ = false

unfoldable pub same : Claim → Claim → Bool
same c other = same_kind c.kind other.kind && key_eq c.identity other.identity

abbrev pub claim_key : List ℕ → List ℕ
claim_key namespace = space_claims ∷ namespace

module _ (marshal : Claim → List ℕ) (unmarshal : List ℕ → Option Claim) where
  -- A claim that was read, if one was.
  abbrev pub decoded : Option Claim → Act (Option Claim)
  decoded none = fail damaged
  decoded (some c) = done (some c)

  unfoldable pub read_claim : Option (List ℕ) → Act (Option Claim)
  read_claim none = done none
  read_claim (some value) = decoded (unmarshal value)

  unfoldable pub namespace_claim : ℕ → ℕ → List ℕ → Act (Option Claim)
  namespace_claim fuel root namespace =
      if length namespace == 0
      then done none
      else (get fuel root (claim_key namespace) >>= λ value. read_claim value)

  -- `claimFor` once it is known who holds the namespace: the root of the tree behind it.
  unfoldable pub settle : ℕ → ℕ → List ℕ → Claim → Option Claim → Act ℕ
  settle fuel root namespace want (some held) =
      if same held want then done root else fail bad_namespace
  settle fuel root namespace want none = put fuel root (claim_key namespace) (marshal want)

  unfoldable pub claim_in : ℕ → ℕ → Caller → List ℕ → Act ℕ
  claim_in fuel root caller namespace =
      if length namespace == 0
      then done root
      else (namespace_claim fuel root namespace >>= λ held.
          settle fuel root namespace (holder namespace caller) held)

  -- `claimFor` behind the reading of the name.
  abbrev pub claim_split : ℕ → ℕ → Caller → Result Fault (List ℕ × List ℕ) → Act ℕ
  claim_split fuel root caller (err e) = fail e
  claim_split fuel root caller (ok (namespace, local)) = claim_in fuel root caller namespace

  unfoldable pub claim_for : ℕ → ℕ → Caller → List ℕ → Act ℕ
  claim_for fuel root caller name = claim_split fuel root caller (split_operation_name name)
