-- ===== src/Trace/Crop/Select.antt =====
-- Which process `crop` selects.
use bootchart.Prelude.{
  ◌≡◌, refl, sym, ◌∙◌, ◌⊎◌, inl, inr, true, false, Bool-cases, Option, some, List, [], ◌∷◌, Text,
  text_eq, text_eq_iff, ◌||◌, arith,
}
use bootchart.Prelude.Int.{ℤ}
use bootchart.Prelude.Dict.{Dict}
use bootchart.Samples.{Process}
use bootchart.Trace.Crop.{is_named, select_proc}
use bootchart.Trace.Crop.Idle.{Decides}

-- A text is one of some names.
abbrev pub IsOneOf : List Text → Text → Type 0
IsOneOf [] cmd = ⊥
IsOneOf (n ∷ ns) cmd = (cmd ≡ n) ⊎ IsOneOf ns cmd

true_is_not_false : true ≡ false → ⊥
true_is_not_false e = ground arith

is_named-Decides :
    (cmd : Text) (names : List Text) → Decides (is_named cmd names) (IsOneOf names cmd)
unfolding is_named
is_named-Decides cmd [] = inr (refl, λ h. h)
is_named-Decides cmd (n ∷ ns) = elim (Bool-cases (text_eq cmd n)) [
  | inl e ↦ inl (rw e refl, inl ((text_eq_iff cmd n).0 e))
  | inr e ↦ elim (is_named-Decides cmd ns) [
    | inl (f, h) ↦ inl (rw (e, f) refl, inr h)
    | inr (f, h) ↦ inr (
      rw (e, f) refl,
      λ (k : IsOneOf (n ∷ ns) cmd). elim k [
        | inl same ↦ true_is_not_false (sym ((text_eq_iff cmd n).1 same) ∙ e)
        | inr rest ↦ h rest
      ],
    )
  ]
]

module _ {V : Type 0} where
  abbrev pub IsMeant : List Text → Process V → Type 0
  IsMeant names p = IsOneOf names p.cmd ⊎ IsOneOf names p.exe

  -- `q` is the first process of the map that is meant, or the last one, or `last` for an empty map.
  abbrev pub Selected :
      List Text → Option (Process V) → Dict ℤ (Process V) → Option (Process V) → Type 0
  Selected names last [] q = q ≡ last
  Selected names last ((k, p) ∷ map) q =
      (IsMeant names p × (q ≡ some p)) ⊎ ((¬ IsMeant names p) × Selected names (some p) map q)

  IsMeant-Decides :
      (names : List Text) (p : Process V)
      → Decides (is_named p.cmd names || is_named p.exe names) (IsMeant names p)
  IsMeant-Decides names p = elim (is_named-Decides p.cmd names) [
    | inl (e, h) ↦ inl (rw e refl, inl h)
    | inr (e, h) ↦ elim (is_named-Decides p.exe names) [
      | inl (f, k) ↦ inl (rw (e, f) refl, inr k)
      | inr (f, k) ↦
          inr (rw (e, f) refl, λ (m : IsMeant names p). elim m [ inl a ↦ h a | inr b ↦ k b ])
    ]
  ]

  pub select_proc-Selected :
      (names : List Text) (last : Option (Process V)) (map : Dict ℤ (Process V))
      → Selected names last map (select_proc names last map)
  unfolding select_proc
  select_proc-Selected names last [] = refl
  select_proc-Selected names last ((k, p) ∷ map) = elim (IsMeant-Decides names p) [
    | inl (e, h) ↦ rw e (inl (h, refl))
    | inr (e, h) ↦ rw e (inr (h, select_proc-Selected names (some p) map))
  ]
