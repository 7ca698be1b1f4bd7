-- ===== src/Examples/Main.antt =====
-- main.py.in at small inputs.
use bootchart.Prelude.{
  ◌≡◌, refl, false, some, none, [], ◌∷◌, ◌++◌, ◌==◌, Text, codes, text_eq, if◌then◌else◌,
}
use bootchart.Prelude.Int.{pos, ◌*ℤ◌}
use bootchart.Prelude.Decimal.{str}
use bootchart.Main.{
  OsPath, Options, base_name, output_of, get_filename, is_archive, annotation_lines,
}
use bootchart.Main.Laws.{get_filename-tar_gz}

-- The path before its last dot, and the rest.
unfoldable parts_of : Text → Text × Text
parts_of [] = ([], [])
parts_of (c ∷ s) =
    let parts : Text × Text = parts_of s in
    elim parts.1 [
      | [] ↦ if c == b'.' then ([], c ∷ s) else (c ∷ parts.0, [])
      | d ∷ t ↦ (c ∷ parts.0, d ∷ t)
    ]

-- One directory, with archives in the directory of the run.
abbrev one_dir : OsPath
one_dir = record {
  is_dir = λ path. text_eq path (codes "charts");
  split = λ path. ([], path);
  splitext = parts_of;
  join = λ dir name. dir ++ (b'/' ∷ name);
}

abbrev into_charts : Options
into_charts = record {
  interactive = false;
  boottime = false;
  format = codes "png";
  output = codes "charts";
  annotate_file = [];
}

tgz_name : get_filename one_dir (codes "boot.tgz" ∷ []) into_charts ≡ codes "charts/boot.png"
unfolding get_filename base_name output_of is_archive text_eq parts_of
tgz_name = refl

written_annotations : annotation_lines (none ∷ some (pos 25) ∷ []) ≡ codes "\n250\n"
unfolding annotation_lines str ◌*ℤ◌
written_annotations = refl

get_filename-tar_gz_example :
    get_filename one_dir ((codes "boot" ++ codes ".tar.gz") ∷ []) into_charts
    ≡ codes "charts" ++ (b'/' ∷ codes "bootchart.png")
unfolding output_of text_eq parts_of
get_filename-tar_gz_example =
    get_filename-tar_gz one_dir into_charts (codes "boot") refl refl (refl, (refl, (refl, tt)))
