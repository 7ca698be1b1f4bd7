-- ===== src/Parse/Maps/RoundTrip.antt =====
-- The paternity log that the collector writes, `"%d %d\n"` for every process, is read back.
use bootchart.Prelude.{ℕ, ◌≤◌, ◌≡◌, refl, ap, ◌∙◌, false, arith, List, [], ◌∷◌, ◌++◌, Text, ◌==◌}
use bootchart.Prelude.Int.{ℤ, pos}
use bootchart.Prelude.Dict.{Dict, int_key, put}
use bootchart.Prelude.Results.{ok, fold_results}
use bootchart.Prelude.Words.{split_on}
use bootchart.Prelude.Decimal.{str}
use bootchart.Prelude.Decimal.Laws.{str-AllDigits, int-str}
use bootchart.Prelude.Decimal.Splits.{
  IsWithout, IsWithout-append, split_on-append, split_on-single, digits-IsWithout,
}
use bootchart.Parse.Maps.{add_parent, add_parent_line, parse_paternity_log}

-- A process and its parent.
pub record Edge : Type 0 where
  pub pid : ℕ
  pub ppid : ℕ

abbrev pub write_edge : Edge → Text
write_edge e = str (pos e.pid) ++ (b' ' ∷ str (pos e.ppid))

-- The log, a line for every process.
unfoldable pub write_edges : List Edge → Text
write_edges [] = []
write_edges (e ∷ es) = write_edge e ++ (b'\n' ∷ write_edges es)

-- The map of the edges, the later ones over the earlier ones.
unfoldable pub put_edges : Dict ℤ ℤ → List Edge → Dict ℤ ℤ
put_edges map [] = map
put_edges map (e ∷ es) = put_edges (put map (pos e.pid) (pos e.ppid)) es

no_space : (x : ℕ) → 48 ≤ x → x ≤ 57 → (x == 32) ≡ false
no_space x h k = ground arith

no_newline : (x : ℕ) → 48 ≤ x → x ≤ 57 → (x == 10) ≡ false
no_newline x h k = ground arith

line-IsWithout : (e : Edge) → IsWithout b'\n' (write_edge e)
line-IsWithout e =
    IsWithout-append b'\n' (str (pos e.pid)) (b' ' ∷ str (pos e.ppid))
      (digits-IsWithout b'\n' (str (pos e.pid)) no_newline (str-AllDigits e.pid))
      (refl, digits-IsWithout b'\n' (str (pos e.ppid)) no_newline (str-AllDigits e.ppid))

add_parent-edge :
    (map : Dict ℤ ℤ) (e : Edge)
    → add_parent map (split_on b' ' (write_edge e)) ≡ ok (put map (pos e.pid) (pos e.ppid))
unfolding add_parent
add_parent-edge map e =
    let first = digits-IsWithout b' ' (str (pos e.pid)) no_space (str-AllDigits e.pid) in
    let second = digits-IsWithout b' ' (str (pos e.ppid)) no_space (str-AllDigits e.ppid) in
    ap (add_parent map) (
      split_on-append b' ' (str (pos e.pid)) (str (pos e.ppid)) first
      ∙ ap (◌∷◌ (str (pos e.pid))) (split_on-single b' ' (str (pos e.ppid)) second))
    ∙ rw (int-str e.pid, int-str e.ppid) refl

-- A line with a space is not empty.
add_parent_line-append :
    (map : Dict ℤ ℤ) (s t : Text)
    → add_parent_line map (s ++ (b' ' ∷ t)) ≡ add_parent map (split_on b' ' (s ++ (b' ' ∷ t)))
unfolding add_parent_line
add_parent_line-append map [] t = refl
add_parent_line-append map (x ∷ s) t = refl

add_parent_line-edge :
    (map : Dict ℤ ℤ) (e : Edge)
    → add_parent_line map (write_edge e) ≡ ok (put map (pos e.pid) (pos e.ppid))
add_parent_line-edge map e =
    add_parent_line-append map (str (pos e.pid)) (str (pos e.ppid)) ∙ add_parent-edge map e

read_lines :
    (map : Dict ℤ ℤ) (es : List Edge)
    → fold_results add_parent_line map (split_on b'\n' (write_edges es)) ≡ ok (put_edges map es)
unfolding fold_results add_parent_line write_edges put_edges split_on
read_lines map [] = refl
read_lines map (e ∷ es) =
    rw
      (
        split_on-append b'\n' (write_edge e) (write_edges es) (line-IsWithout e),
        add_parent_line-edge map e,
      )
      (read_lines (put map (pos e.pid) (pos e.ppid)) es)

-- A log with a line `pid ppid` for each of some processes is read back as the map from each pid to its
-- parent, in which a later line replaces an earlier one of the same pid, and 0 is its own parent
-- where no line says otherwise.
pub parse_paternity_log-write_edges :
    (es : List Edge)
    → parse_paternity_log (write_edges es) ≡ ok (put_edges ((pos 0, pos 0) ∷ []) es)
unfolding parse_paternity_log
parse_paternity_log-write_edges es = read_lines ((pos 0, pos 0) ∷ []) es
