-- ===== src/Pii/Stream/Tests.antt =====
-- The streaming restorer on concrete chunks, and its theorems at them.
use drgtw.Base.{ℕ, ◌≤◌, ◌≡◌, refl, ◌⊎◌, Bytes, codes, List, [], ◌∷◌, arith, In, equal, strip_prefix}
use drgtw.Base.Sort.{sort_by, insert_by}
use drgtw.Pii.Stream.{
  PlaceholderEntry, StreamRestorer, from_view, escape_char, json_escape, apply_replacements,
  replace_from, find_entry, longest_prefix_suffix, passes_through, feed, finish, run,
  should_replace, suffix_for, longest_from, holdback_len, process,
}
use drgtw.Pii.Stream.Holdback.{IsHeld, Begins, longest_prefix_suffix-IsLongest, feed-IsHeld}
use drgtw.Pii.Stream.Transparent.{run_unchanged}

abbrev view : List (Bytes × Bytes)
view = (codes "EMAIL_1", codes "a\"b@c.de") ∷ (codes "PERSON_1", codes "Ann") ∷ []

abbrev restorer : StreamRestorer
restorer = from_view view 8

-- A placeholder that is split between two chunks, one at the very end, and a longer unknown one.
run-split :
    (run (codes "to PERSO" ∷ codes "N_1, EMAIL_12, EMA" ∷ codes "IL_1" ∷ []) restorer).1
    ≡ codes "to Ann, EMAIL_12, a\\\"b@c.de"
unfolding run from_view json_escape escape_char sort_by insert_by apply_replacements replace_from
    find_entry strip_prefix longest_prefix_suffix suffix_for longest_from equal passes_through feed
    finish should_replace process holdback_len
run-split = refl

run_unchanged_example :
    (run (codes "an EM" ∷ codes "U on PERS" ∷ codes "" ∷ []) restorer).1 ≡ codes "an EMU on PERS"
unfolding from_view json_escape escape_char sort_by insert_by find_entry strip_prefix
run_unchanged_example =
    run_unchanged (codes "an EM" ∷ codes "U on PERS" ∷ codes "" ∷ []) restorer (ground arith)

feed-IsHeld_example : IsHeld restorer.entries (feed (codes "hi EMAIL_1") restorer).0.buf
feed-IsHeld_example = feed-IsHeld (codes "hi EMAIL_1") restorer

longest_prefix_suffix-IsLongest_example :
    ((longest_prefix_suffix (codes "x PERS") restorer.entries ≡ 0)
      ⊎ ((e : PlaceholderEntry) × In e restorer.entries
          × Begins
              (codes "x PERS")
              e.placeholder
              (longest_prefix_suffix (codes "x PERS") restorer.entries)))
    × ((e : PlaceholderEntry) (n : ℕ)
        → In e restorer.entries
        → Begins (codes "x PERS") e.placeholder n
        → n ≤ longest_prefix_suffix (codes "x PERS") restorer.entries)
longest_prefix_suffix-IsLongest_example =
    longest_prefix_suffix-IsLongest (codes "x PERS") restorer.entries
