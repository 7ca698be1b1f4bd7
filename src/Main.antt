-- ===== src/Main.antt =====
-- pybootchartgui/main.py.in: what the program does for its options. The functions of os.path are a
-- parameter, as is the reading of the logs.
pub mod Laws
use bootchart.Prelude.{
  ℕ, Bool, true, false, Option, none, some, List, [], ◌∷◌, ◌++◌, ◌||◌, Text, codes, text_eq,
  if◌then◌else◌, suc,
}
use bootchart.Prelude.Results.{Result, ok, err, Error, parse_error, ◌>>=◌}
use bootchart.Prelude.Int.{ℤ, pos, negsuc, ◌*ℤ◌}
use bootchart.Prelude.Decimal.{str}
use bootchart.Draw.Layout.{RenderOptions, Chart, Surface}
use bootchart.Draw.Header.{time_text}
use bootchart.Gui.Window.{render_options}
use bootchart.Batch.{Outcome}
use bootchart.Batch as Batch

-- The functions of os.path.
pub record OsPath : Type 0 where
  pub is_dir : Text → Bool
  pub split : Text → Text × Text
  pub splitext : Text → Text × Text
  pub join : Text → Text → Text

-- The options that `main` reads.
pub record Options : Type 0 where
  pub interactive : Bool
  pub boottime : Bool
  pub format : Text
  pub output : Text
  pub annotate_file : Text

unfoldable pub is_archive : Text → Bool
is_archive ext =
    text_eq ext (codes ".tar") || text_eq ext (codes ".tgz") || text_eq ext (codes ".tar.gz")

-- The name of the chart in a directory.
unfoldable pub base_name : OsPath → List Text → Text
unfolding is_archive
base_name os (path ∷ []) =
    if os.is_dir path
    then (os.split path).1
    else if is_archive (os.splitext path).1
    then (os.split (os.splitext path).0).1
    else codes "bootchart"
base_name os _ = codes "bootchart"

-- `options.output`, or a name for the format
unfoldable pub output_of : Options → Text
output_of options = elim options.output [
  | [] ↦ codes "bootchart" ++ (b'.' ∷ options.format)
  | c ∷ s ↦ c ∷ s
]

-- _get_filename
unfoldable pub get_filename : OsPath → List Text → Options → Text
unfolding output_of base_name
get_filename os paths options =
    if os.is_dir (output_of options)
    then os.join (output_of options) (base_name os paths ++ (b'.' ∷ options.format))
    else output_of options

-- The lines of the file of annotations: the times in ms, and an empty line for None.
unfoldable pub annotation_lines : List (Option ℤ) → Text
annotation_lines [] = []
annotation_lines (none ∷ times) = b'\n' ∷ annotation_lines times
annotation_lines (some time ∷ times) = str (time *ℤ pos 10) ++ (b'\n' ∷ annotation_lines times)

-- What `main` makes of a trace.
pub record Traced (V : Type 0) : Type 0 where
  pub idle : Option ℕ
  pub duration : ℕ
  pub times : List (Option ℤ)
  pub chart : Chart V

-- The duration that is printed: an idle time of 0 is none.
unfoldable pub boot_time : Option ℕ → ℕ → ℕ
boot_time (some (suc n)) duration = suc n
boot_time _ duration = duration

pub data Effect : Type 0 where
  show_window : Effect
  print_line : Text → Effect
  write_file : Text → Text → Effect
  write_image : Text → Outcome → Effect

-- `except parsing.ParseError`
unfoldable pub or_exit : Result (ℕ × List Effect) → Result (ℕ × List Effect)
or_exit (err parse_error) = ok (2, [])
or_exit (err e) = err e
or_exit (ok done) = ok done

unfoldable pub annotations : Options → List (Option ℤ) → List Effect
unfolding annotation_lines
annotations options times = elim options.annotate_file [
  | [] ↦ []
  | c ∷ s ↦ write_file (c ∷ s) (annotation_lines times) ∷ []
]

-- The paths, or the usual one.
unfoldable pub paths_of : List Text → List Text
paths_of [] = codes "/var/log/bootchart.tgz" ∷ []
paths_of (path ∷ paths) = path ∷ paths

module _ {V : Type 0} where
  -- The branch that draws the chart; the result of batch.render is dropped.
  unfoldable pub draw_chart :
      OsPath → Options → List Text → Surface → Traced V → Result (ℕ × List Effect)
  unfolding annotations get_filename Batch.render
  draw_chart os options paths surface trace = do
    let filename : Text = get_filename os paths options
    outcome ← Batch.render (some options.format) filename render_options surface trace.chart
    ok (0, annotations options trace.times ++ write_image filename outcome ∷ [])

  unfoldable pub act : OsPath → Options → List Text → Surface → Traced V → Result (ℕ × List Effect)
  unfolding draw_chart boot_time
  act os options paths surface trace =
      if options.interactive
      then ok (0, show_window ∷ [])
      else if options.boottime
      then ok (0, print_line (time_text (boot_time trace.idle trace.duration)) ∷ [])
      else draw_chart os options paths surface trace

  -- main
  unfoldable pub main :
      OsPath
      → Options
      → List Text
      → Surface
      → (List Text → Result (Traced V))
      → Result (ℕ × List Effect)
  unfolding act or_exit paths_of
  main os options args surface read =
      or_exit (read (paths_of args) >>= act os options (paths_of args) surface)
