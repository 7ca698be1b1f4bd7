-- ===== src/Main/Laws.antt =====
-- The name of the image, and the boot time that is printed.
use mathlib.Core.Path.{subst}
use bootchart.Prelude.{
  ℕ, ◌≡◌, refl, sym, ap, ◌∙◌, true, false, Bool-cases, some, List, [], ◌∷◌, ◌++◌, Text, codes,
  text_eq, text_eq_iff, inl, inr, arith,
}
use bootchart.Prelude.Results.{Result, ok}
use bootchart.Prelude.Int.{pos}
use bootchart.Prelude.Decimal.Splits.{IsWithout}
use bootchart.Draw.Header.{time_text}
use bootchart.Draw.Header.Laws.{read_time, read_time-time_text}
use bootchart.Draw.Layout.{Surface}
use bootchart.Main.{
  OsPath, Options, is_archive, base_name, output_of, get_filename, Traced, boot_time, print_line,
  or_exit, act, paths_of, main,
}

-- An extension has no dot behind its first character.
abbrev pub IsExt : Text → Type 0
IsExt [] = Unit
IsExt (c ∷ s) = IsWithout b'.' s

-- What os.path.splitext gives: two parts of the path, of which the second is an extension.
abbrev pub IsSplitExt : Text → Text × Text → Type 0
IsSplitExt path parts = (parts.0 ++ parts.1 ≡ path) × IsExt parts.1

-- The third code from the end.
unfoldable third_last : ℕ → ℕ → ℕ → Text → ℕ
third_last a b c [] = a
third_last a b c (x ∷ s) = third_last b c x s

third_last-append :
    (a b c x y z : ℕ) (s t : Text) → third_last a b c (s ++ (x ∷ y ∷ z ∷ t)) ≡ third_last x y z t
unfolding third_last
third_last-append a b c x y z [] t = refl
third_last-append a b c x y z (d ∷ s) t = third_last-append b c d x y z s t

-- A path that ends in `t` and two codes does not end in `.gz`.
not_gz :
    (root s t : Text) (x y z : ℕ)
    → third_last x y z t ≡ b't'
    → root ++ (x ∷ y ∷ z ∷ t) ≡ s ++ codes ".tar.gz"
    → ⊥
unfolding third_last
not_gz root s t x y z third h =
    let e : third_last x y z t ≡ b'.' =
      sym (third_last-append 0 0 0 x y z root t)
      ∙ ap (third_last 0 0 0) h
      ∙ third_last-append 0 0 0 b'.' b't' b'a' s (codes "r.gz") in
    omega arith

differs : (s t : Text) → (s ≡ t → ⊥) → text_eq s t ≡ false
differs s t h = elim (Bool-cases (text_eq s t)) [
  | inl e ↦ elim (h ((text_eq_iff s t).0 e)) [ ]
  | inr e ↦ e
]

one_dot : IsExt (codes ".tar.gz") → ⊥
one_dot h = let e : true ≡ false = h.1.1.1.0 in ground arith

is_archive-tar_gz :
    (s : Text) (parts : Text × Text)
    → IsSplitExt (s ++ codes ".tar.gz") parts
    → is_archive parts.1 ≡ false
unfolding is_archive
is_archive-tar_gz s (root, ext) h =
    let same : (e : Text) → ext ≡ e → root ++ e ≡ s ++ codes ".tar.gz" =
      λ e eq. ap (λ t. root ++ t) (sym eq) ∙ h.0 in
    let tar = differs ext (codes ".tar") λ e.
      not_gz root s (codes "r") b'.' b't' b'a' (unfold third_last in refl)
        (same (codes ".tar") e) in
    let tgz = differs ext (codes ".tgz") λ e.
      not_gz root s (codes "z") b'.' b't' b'g' (unfold third_last in refl)
        (same (codes ".tgz") e) in
    let tar_gz = differs ext (codes ".tar.gz") λ e. one_dot (subst IsExt e h.1) in
    rw (tar, tgz, tar_gz) refl

-- The only path is a file whose name ends in `.tar.gz`, and the output is a directory. If os.path.splitext
-- splits the path into two parts, of which the second is an extension with no dot behind its first
-- character, then _get_filename names the image `bootchart` in that directory, not after the archive,
-- though `.tar.gz` is among the extensions that it looks for.
pub get_filename-tar_gz :
    (os : OsPath) (options : Options) (s : Text)
    → os.is_dir (s ++ codes ".tar.gz") ≡ false
    → os.is_dir (output_of options) ≡ true
    → IsSplitExt (s ++ codes ".tar.gz") (os.splitext (s ++ codes ".tar.gz"))
    → get_filename os ((s ++ codes ".tar.gz") ∷ []) options
      ≡ os.join (output_of options) (codes "bootchart" ++ (b'.' ∷ options.format))
unfolding get_filename base_name
get_filename-tar_gz os options s file directory ext =
    rw (directory, file, is_archive-tar_gz s (os.splitext (s ++ codes ".tar.gz")) ext) refl

-- With the option for the boot time and without the one for the window, main ends with 0 for every trace
-- that is read, and prints a line from which the idle time or the duration is read back.
pub main-boot_time :
    {V : Type 0} (os : OsPath) (options : Options) (args : List Text) (surface : Surface)
    → (read : List Text → Result (Traced V)) (trace : Traced V) → options.interactive ≡ false
    → options.boottime ≡ true
    → read (paths_of args) ≡ ok trace
    → (text : Text) × (main os options args surface read ≡ ok (0, print_line text ∷ []))
      × (read_time text ≡ some (pos (boot_time trace.idle trace.duration)))
unfolding main act or_exit
main-boot_time os options args surface read trace still timed reads = (
  time_text (boot_time trace.idle trace.duration),
  rw (reads, still, timed) refl,
  read_time-time_text (boot_time trace.idle trace.duration),
)
