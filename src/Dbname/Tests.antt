-- ===== src/Dbname/Tests.antt =====
-- Names of accounts and databases.
use sapedb.Base.{◌≡◌, refl, [], ◌∷◌, ok, err}
use sapedb.Base.Bytes.{lex}
use sapedb.Base.Lex.{key_eq}
use sapedb.Dbname.{
  check, check_pair, has_path_separator, all_usable, usable_rune, directory, bad_character,
  bad_database,
}

-- "a.b", ".." and "a b"
plain_name : check (97 ∷ 46 ∷ 98 ∷ []) ≡ ok tt
unfolding check has_path_separator all_usable usable_rune key_eq lex
plain_name = refl

parent_name : check (46 ∷ 46 ∷ []) ≡ err directory
unfolding check has_path_separator all_usable usable_rune key_eq lex
parent_name = refl

spaced_name : check_pair (97 ∷ []) (97 ∷ 32 ∷ 98 ∷ []) ≡ err (bad_database bad_character)
unfolding check_pair check has_path_separator all_usable usable_rune key_eq lex
spaced_name = refl
