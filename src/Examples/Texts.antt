-- ===== src/Examples/Texts.antt =====
-- The texts that the program reads and draws, at small inputs.
use bootchart.Prelude.{◌≡◌, refl, some, List, [], ◌∷◌, ◌++◌, Text, codes, length}
use bootchart.Prelude.Int.{pos}
use bootchart.Prelude.Results.{ok}
use bootchart.Prelude.Dict.{Dict, text_key}
use bootchart.Prelude.Decimal.{str}
use bootchart.Parse.Maps.{parse_paternity_log}
use bootchart.Parse.Maps.RoundTrip.{Edge, write_edges, put_edges, parse_paternity_log-write_edges}
use bootchart.Draw.Header.{Line, time_text, two_digits, value_of, draw_header}
use bootchart.Draw.Header.Laws.{last_of, read_time, draw_header-duration}
use bootchart.Draw.Layout as Layout

abbrev edges : List Edge
edges =
    record { pid = 1; ppid = 0 }
    ∷ record { pid = 23; ppid = 1 }
    ∷ record { pid = 45; ppid = 23 }
    ∷ []

written_edges : write_edges edges ≡ codes "1 0\n23 1\n45 23\n"
unfolding write_edges str
written_edges = refl

parse_paternity_log-write_edges_example :
    parse_paternity_log (write_edges edges) ≡ ok (put_edges ((pos 0, pos 0) ∷ []) edges)
parse_paternity_log-write_edges_example = parse_paternity_log-write_edges edges

-- A boot of two minutes and more.
two_minutes : time_text 12345 ≡ codes "02:03.45"
unfolding time_text two_digits str
two_minutes = refl

abbrev headers : Dict Text Text
headers =
    (codes "title", codes "Boot chart for host")
    ∷ (codes "system.cpu", codes "model name : Intel (R) CPU")
    ∷ (codes "system.maxpid", codes "2345")
    ∷ []

draw_header-duration_example :
    (first : Line) × (rest : List Line) × (tail : Text) × (draw_header 14 13 headers 12345
      ≡ first ∷ rest)
    × (first.text ≡ value_of headers (codes "title"))
    × (length rest ≡ 5)
    × ((last_of first rest).y ≡ Layout.draw_header 14 13)
    × ((last_of first rest).text ≡ codes "time : " ++ (time_text 12345 ++ tail))
    × (read_time (time_text 12345) ≡ some (pos 12345))
draw_header-duration_example = draw_header-duration 14 13 headers 12345
