-- ===== src/Parse/Files/Depth.antt =====
-- Two levels of directories are enough for parse_paths.
use bootchart.Prelude.{
  ℕ, suc, ◌≡◌, refl, ap, ◌∙◌, inl, inr, true, false, some, List, [], ◌∷◌, Text, Bool-cases,
}
use bootchart.Prelude.Results.{Result, ok, err, ◌>>=◌}
use bootchart.Parse.Pacct.{Version}
use bootchart.Parse.Files.Names.{join_path, sort_paths, insert_path, text_leb}
use bootchart.Parse.Files.{TraceState, FileSystem, files_of, parse_path, parse_paths}

>>=-cong :
    {X Y : Type 0} (r : Result X) (f g : X → Result Y)
    → ((x : X) → f x ≡ g x)
    → (r >>= f) ≡ (r >>= g)
>>=-cong (err e) f g h = refl
>>=-cong (ok x) f g h = h x

module _ (v : Version) (fs : FileSystem) where
  -- Paths of files, which are no directories.
  abbrev AreFiles : List Text → Type 0
  AreFiles [] = Unit
  AreFiles (p ∷ ps) = (fs.is_dir p ≡ false) × AreFiles ps

  insert_path-AreFiles :
      (p : Text) (ps : List Text) → fs.is_dir p ≡ false → AreFiles ps → AreFiles (insert_path p ps)
  unfolding insert_path
  insert_path-AreFiles p [] h k = (h, tt)
  insert_path-AreFiles p (q ∷ qs) h (a, k) = elim (Bool-cases (text_leb p q)) [
    | inl e ↦ rw e (h, (a, k))
    | inr e ↦ rw e (a, insert_path-AreFiles p qs h k)
  ]

  sort_paths-AreFiles : (ps : List Text) → AreFiles ps → AreFiles (sort_paths ps)
  unfolding sort_paths
  sort_paths-AreFiles [] h = tt
  sort_paths-AreFiles (p ∷ ps) (h, k) =
      insert_path-AreFiles p (sort_paths ps) h (sort_paths-AreFiles ps k)

  files_of-AreFiles :
      ((p : Text) → fs.is_file p ≡ true → fs.is_dir p ≡ false)
      → (path : Text) (names : List Text) → AreFiles (files_of v fs path names)
  unfolding files_of
  files_of-AreFiles apart path [] = tt
  files_of-AreFiles apart path (f ∷ names) = elim (Bool-cases (fs.is_file (join_path path f))) [
    | inl e ↦ rw e (apart (join_path path f) e, files_of-AreFiles apart path names)
    | inr e ↦ rw e (files_of-AreFiles apart path names)
  ]

  parse_paths-files :
      (depth : ℕ) (s : TraceState) (paths : List Text)
      → AreFiles paths
      → parse_paths v fs (suc depth) s paths ≡ parse_paths v fs 1 s paths
  unfolding parse_paths
  parse_paths-files depth s [] h = refl
  parse_paths-files depth s (p ∷ ps) (a, h) =
      let here : TraceState = record s { filename = some p } in
      elim (Bool-cases (fs.exists p)) [
        | inl e ↦
            rw (e, a)
              (>>=-cong (parse_path v fs here p) _ _ (λ s'. parse_paths-files depth s' ps h))
        | inr e ↦ rw e (parse_paths-files depth s ps h)
      ]

  -- Where no file is a directory, a greater depth than 2 changes nothing: the error of the depth does
  -- not come up.
  parse_paths-depth :
      ((p : Text) → fs.is_file p ≡ true → fs.is_dir p ≡ false)
      → (depth : ℕ) (s : TraceState) (paths : List Text)
      → parse_paths v fs (suc (suc depth)) s paths ≡ parse_paths v fs 2 s paths
  unfolding parse_paths
  parse_paths-depth apart depth s [] = refl
  parse_paths-depth apart depth s (p ∷ ps) =
      let here : TraceState = record s { filename = some p } in
      let files = sort_paths (files_of v fs p (fs.list_dir p)) in
      let below : parse_paths v fs (suc depth) here files ≡ parse_paths v fs 1 here files =
        parse_paths-files depth here files
          (sort_paths-AreFiles _ (files_of-AreFiles apart p (fs.list_dir p))) in
      let next = parse_paths v fs (suc (suc depth)) in
      elim (Bool-cases (fs.exists p)) [
        | inl e ↦ elim (Bool-cases (fs.is_dir p)) [
          | inl d ↦
              rw (e, d)
                (ap (λ (r : Result TraceState). r >>= λ s'. next s' ps) below
                  ∙ >>=-cong (parse_paths v fs 1 here files) _ _
                      (λ s'. parse_paths-depth apart depth s' ps))
          | inr d ↦
              rw (e, d)
                (>>=-cong (parse_path v fs here p) _ _ (λ s'. parse_paths-depth apart depth s' ps))
        ]
        | inr e ↦ rw e (parse_paths-depth apart depth s ps)
      ]
