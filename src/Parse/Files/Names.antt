-- ===== src/Parse/Files/Names.antt =====
-- The functions of os.path that parse_paths calls, and the order of file names.
use bootchart.Prelude.{
  ◌-◌, Bool, true, false, not, ◌&&◌, ◌||◌, Option, none, some, List, [], ◌∷◌, ◌++◌, Text, codes,
  length, take, ltb, ◌==◌, if◌then◌else◌,
}
use bootchart.Prelude.Words.{split_on, ends_with}

last_piece : List Text → Text
last_piece [] = []
last_piece (w ∷ []) = w
last_piece (w ∷ v ∷ ws) = last_piece (v ∷ ws)

-- os.path.basename
unfoldable pub basename : Text → Text
unfolding last_piece split_on
basename path = last_piece (split_on b'/' path)

-- The suffix from the last dot that is not one of the leading dots.
suffix_of : Bool → Text → Option Text
suffix_of seen [] = none
suffix_of seen (c ∷ s) = elim (suffix_of (seen || not (c == b'.')) s) [
  | some e ↦ some e
  | none ↦ if (c == b'.') && seen then some (c ∷ s) else none
]

-- os.path.splitext(path)[1] and [0]
unfoldable pub extension_of : Text → Text
unfolding suffix_of basename
extension_of path = elim (suffix_of false (basename path)) [ none ↦ [] | some e ↦ e ]

unfoldable pub root_of : Text → Text
unfolding extension_of
root_of path = take (length path - length (extension_of path)) path

-- os.path.join(path, f), for a name from os.listdir
unfoldable pub join_path : Text → Text → Text
unfolding ends_with
join_path [] f = f
join_path (c ∷ path) f =
    if ends_with (c ∷ path) (codes "/") then (c ∷ path) ++ f else (c ∷ path) ++ (b'/' ∷ f)

-- `s <= t` on texts
unfoldable pub text_leb : Text → Text → Bool
text_leb [] t = true
text_leb (c ∷ s) [] = false
text_leb (c ∷ s) (d ∷ t) =
    let rest = text_leb s t in if ltb c d then true else if c == d then rest else false

unfoldable pub insert_path : Text → List Text → List Text
insert_path p [] = p ∷ []
insert_path p (q ∷ qs) = if text_leb p q then p ∷ q ∷ qs else q ∷ insert_path p qs

-- files.sort()
unfoldable pub sort_paths : List Text → List Text
unfolding insert_path text_leb
sort_paths [] = []
sort_paths (p ∷ ps) = insert_path p (sort_paths ps)
