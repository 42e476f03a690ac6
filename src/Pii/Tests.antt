-- ===== src/Pii/Tests.antt =====
-- Runs of the map and of the restoring scan on concrete texts, and the theorems at such texts.
use mathlib.Core.Option
use drgtw.Base.{◌≡◌, refl, Bytes, codes, some, List, [], ◌∷◌, arith, equal, strip_prefix}
use drgtw.Base.Assoc.{bytes_eq, pair_eq, lookup, insert, pair_beq}
use drgtw.Base.Sort.{sort_by}
use drgtw.Pii.Kind.{Detection, email, placeholder_prefix}
use drgtw.Pii.Decimal.{decimal, placeholder}
use drgtw.Pii.Slice.{is_char_boundary}
use drgtw.Pii.EntityMap.{EntityMap, new, get_or_insert, pseudonymize, restore}
use drgtw.Base.Results.{Result, err}
use drgtw.Pii.EntityMap.Assign.{new-IsConsistent, IsConsistent}
use drgtw.Pii.EntityMap.Issue.{get_or_insert-IsConsistent, get_or_insert_binds}
use drgtw.Pii.EntityMap.RoundTrip.{IsReady, written}
use drgtw.Pii.EntityMap.Pseudonymize.{segments, tail_of, restore-pseudonymize}

abbrev same_name : Bytes → Bytes
same_name name = name

abbrev letter : Bytes
letter = codes "hi a@b.de, c@d.de, a@b.de!"

abbrev letter_spans : List Detection
letter_spans =
    record { start = 3; stop = 9; kind = email }
    ∷ record { start = 11; stop = 17; kind = email }
    ∷ record { start = 19; stop = 25; kind = email }
    ∷ []

abbrev fresh : EntityMap (Unit {0})
fresh = new

pseudonymize-letter :
    Option.map
      (λ (r : EntityMap (Unit {0}) × Bytes). r.1)
      (pseudonymize same_name letter letter_spans fresh)
    ≡ some (codes "hi EMAIL_1, EMAIL_2, EMAIL_1!")
unfolding pseudonymize lookup insert pair_beq equal placeholder placeholder_prefix
pseudonymize-letter = refl

new-IsReady : IsReady fresh
new-IsReady = record { consistent = new-IsConsistent; unique = tt; words = tt }

restore-pseudonymize_example :
    (m' : EntityMap (Unit {0})) × (out : Bytes) × (pseudonymize same_name letter letter_spans fresh
      ≡ some (m', out))
    × (restore m' out ≡ some letter)
    × IsReady m'
unfolding segments tail_of written get_or_insert placeholder placeholder_prefix sort_by lookup
    insert pair_beq equal strip_prefix is_char_boundary
restore-pseudonymize_example =
    restore-pseudonymize same_name letter letter_spans fresh new-IsReady (ground arith)
      (ground arith) (omega arith) (ground arith)

abbrev two_mails : EntityMap (Unit {0})
two_mails =
    (get_or_insert (codes "EMAIL") (codes "c@d.de")
      (get_or_insert (codes "EMAIL") (codes "a@b.de") fresh).0).0

two_mails-IsConsistent : IsConsistent two_mails
unfolding get_or_insert lookup insert pair_beq equal placeholder decimal
two_mails-IsConsistent =
    get_or_insert-IsConsistent (codes "EMAIL") (codes "c@d.de")
      (get_or_insert (codes "EMAIL") (codes "a@b.de") fresh).0
      (get_or_insert-IsConsistent (codes "EMAIL") (codes "a@b.de") fresh new-IsConsistent
        (omega arith))
      (omega arith)

get_or_insert_binds_example :
    lookup
      (get_or_insert (codes "PHONE") (codes "123") two_mails).1
      (get_or_insert (codes "PHONE") (codes "123") two_mails).0.backward
    ≡ some (codes "123")
unfolding get_or_insert lookup insert pair_beq equal placeholder decimal
get_or_insert_binds_example =
    get_or_insert_binds (codes "PHONE") (codes "123") two_mails two_mails-IsConsistent (omega arith)

abbrev no_assignments : Unit {0} → Bytes → Bytes → Result Bytes Bytes × Unit {0}
no_assignments s prefix original = (err (codes "closed"), s)
