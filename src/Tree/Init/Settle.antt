-- ===== src/Tree/Init/Settle.antt =====
-- What the adoption of daemons keeps of a process list.
use mathlib.Core.Path.{subst}
use mathlib.Core.Option.{some_inj}
use bootchart.Prelude.{
  Bool, true, false, ℕ, ◌<◌, ◌≤◌, [], ◌∷◌, arith, ◌≡◌, refl, sym, ap, ◌∙◌, ◌&&◌, ◌⊎◌, inl, inr,
  Option, none, some, List, map, codes, text_eq, Bool-cases,
}
use bootchart.Prelude.Int.{ℤ, eqb_ℤ, ltb_ℤ}
use bootchart.Samples.{Process}
use bootchart.Tree.Build.{find_process, find_rc, adopt, has_init_parent, empty_lists, build, Lists}
use bootchart.Tree.Build.Forests.{IsBuilt, IsBelow, AllRanked, find_process-cons, find_process-head}
use bootchart.Tree.Build.Daemons.{IsSettled, build-IsBuilt, update_ppids_for_daemons-IsSettled}
use bootchart.Tree.Build.Counts.{AllDistinct, IsFound, AllFound}
use bootchart.Tree.Init.{settle}

both : (a b c : Bool) → (a && b && c) ≡ true → (a ≡ true) × (c ≡ true)
both a b c h = ground arith

module _ {V : Type 0} where
  -- Every process that `rc` may adopt is of a lower rank.
  abbrev pub AllLower : (ℤ → ℕ) → Process V → List (Process V) → Type 0
  AllLower rank rc [] = Unit
  AllLower rank rc (p ∷ ps) =
      (ltb_ℤ rc.pid p.pid ≡ true → has_init_parent p ≡ true → rank p.pid < rank rc.pid)
      × AllLower rank rc ps

  -- No pid occurs twice, every parent is in the list, and `rank` ascends to the parents that the
  -- processes have and that they may get.
  pub record IsOrderly (rank : ℤ → ℕ) (procs : List (Process V)) : Type 0 where
    pub distinct : AllDistinct procs
    pub ranked : AllRanked rank procs
    pub found : AllFound procs procs
    pub lower : (rc : Process V) → find_rc none procs ≡ some rc → AllLower rank rc procs

  adopt-pid : (rc : Process V) (n : ℤ) (p : Process V) → (adopt rc n p).pid ≡ p.pid
  unfolding adopt
  adopt-pid rc n p = elim (Bool-cases (ltb_ℤ rc.pid p.pid && ltb_ℤ p.pid n && has_init_parent p)) [
    | inl e ↦ rw (adopt, e) refl
    | inr e ↦ rw (adopt, e) refl
  ]

  adopt-parent :
      (rc : Process V) (n : ℤ) (p : Process V)
      → ((adopt rc n p).parent ≡ p.parent)
        ⊎ (((adopt rc n p).parent ≡ some rc.pid)
            × (ltb_ℤ rc.pid p.pid ≡ true)
            × (has_init_parent p ≡ true))
  unfolding adopt
  adopt-parent rc n p =
      elim (Bool-cases (ltb_ℤ rc.pid p.pid && ltb_ℤ p.pid n && has_init_parent p)) [
        | inl e ↦
            let (above, init_parent) =
              both (ltb_ℤ rc.pid p.pid) (ltb_ℤ p.pid n) (has_init_parent p) e in
            inr (rw (adopt, e) refl, above, init_parent)
        | inr e ↦ inl (rw (adopt, e) refl)
      ]

  adopt-test :
      (rc : Process V) (n k : ℤ) (p : Process V) → eqb_ℤ (adopt rc n p).pid k ≡ eqb_ℤ p.pid k
  adopt-test rc n k p = ap (λ i. eqb_ℤ i k) (adopt-pid rc n p)

  find_process-map-none :
      (rc : Process V) (n k : ℤ) (ps : List (Process V))
      → find_process k ps ≡ none
      → find_process k (map (adopt rc n) ps) ≡ none
  unfolding find_process
  find_process-map-none rc n k [] h = refl
  find_process-map-none rc n k (p ∷ ps) h = elim (Bool-cases (eqb_ℤ p.pid k)) [
    | inl e ↦ let odd : some p ≡ none = (rw e at h) in cc
    | inr e ↦ rw (adopt-test rc n k p ∙ e) (find_process-map-none rc n k ps (rw e at h))
  ]

  find_process-map-some :
      (rc : Process V) (n k : ℤ) (ps : List (Process V)) (q : Process V)
      → find_process k ps ≡ some q
      → find_process k (map (adopt rc n) ps) ≡ some (adopt rc n q)
  unfolding find_process
  find_process-map-some rc n k [] q h = cc
  find_process-map-some rc n k (p ∷ ps) q h = elim (Bool-cases (eqb_ℤ p.pid k)) [
    | inl e ↦ rw (adopt-test rc n k p ∙ e) (ap (λ x. some (adopt rc n x)) (some_inj.0 (rw e at h)))
    | inr e ↦ rw (adopt-test rc n k p ∙ e) (find_process-map-some rc n k ps q (rw e at h))
  ]

  AllDistinct-adopt :
      (rc : Process V) (n : ℤ) (ps : List (Process V))
      → AllDistinct ps
      → AllDistinct (map (adopt rc n) ps)
  AllDistinct-adopt rc n [] h = tt
  AllDistinct-adopt rc n (p ∷ ps) h = (
    subst (λ k. find_process k (map (adopt rc n) ps) ≡ none) (sym (adopt-pid rc n p))
        (find_process-map-none rc n p.pid ps h.0),
    AllDistinct-adopt rc n ps h.1,
  )

  AllRanked-adopt :
      (rank : ℤ → ℕ) (rc : Process V) (n : ℤ) (ps : List (Process V))
      → AllRanked rank ps
      → AllLower rank rc ps
      → AllRanked rank (map (adopt rc n) ps)
  AllRanked-adopt rank rc n [] h low = tt
  AllRanked-adopt rank rc n (p ∷ ps) h low = (
    subst (λ k. IsBelow rank k (adopt rc n p).parent) (sym (adopt-pid rc n p))
        (elim (adopt-parent rc n p) [
          | inl e ↦ subst (IsBelow rank p.pid) (sym e) h.0
          | inr (e, above, init_parent) ↦
              subst (IsBelow rank p.pid) (sym e) (low.0 above init_parent)
        ]),
    AllRanked-adopt rank rc n ps h.1 low.1,
  )

  IsFound-adopt :
      (rc : Process V) (n : ℤ) (procs : List (Process V)) (o : Option ℤ)
      → IsFound procs o
      → IsFound (map (adopt rc n) procs) o
  IsFound-adopt rc n procs none h = tt
  IsFound-adopt rc n procs (some k) (q, e) = (adopt rc n q, find_process-map-some rc n k procs q e)

  AllFound-adopt :
      (rc : Process V) (n : ℤ) (procs ps : List (Process V))
      → (q : Process V) × (find_process rc.pid procs ≡ some q)
      → AllFound procs ps
      → AllFound (map (adopt rc n) procs) (map (adopt rc n) ps)
  AllFound-adopt rc n procs [] own h = tt
  AllFound-adopt rc n procs (p ∷ ps) own h = (
    elim (adopt-parent rc n p) [
      | inl e ↦
          subst (IsFound (map (adopt rc n) procs)) (sym e) (IsFound-adopt rc n procs p.parent h.0)
      | inr (e, above, init_parent) ↦
          subst (IsFound (map (adopt rc n) procs)) (sym e)
            (IsFound-adopt rc n procs (some rc.pid) own)
    ],
    AllFound-adopt rc n procs ps own h.1,
  )

  -- The `rc` of the first loop is a process of the list.
  find_rc-IsFound :
      (held : Option (Process V)) (ps : List (Process V)) (rc : Process V)
      → find_rc held ps ≡ some rc
      → (held ≡ some rc) ⊎ IsFound ps (some rc.pid)
  unfolding find_rc
  find_rc-IsFound held [] rc h = inl h
  find_rc-IsFound held (p ∷ ps) rc h =
      elim (Bool-cases (text_eq p.cmd (codes "rc") && has_init_parent p)) [
        | inl e ↦ elim (find_rc-IsFound (some p) ps rc (rw e at h)) [
          | inl same ↦ inr (
              subst (λ (x : Process V). IsFound (p ∷ ps) (some x.pid)) (some_inj.0 same)
                (p, find_process-head p ps))
          | inr there ↦ inr (find_process-cons p rc.pid ps there)
        ]
        | inr e ↦ elim (find_rc-IsFound held ps rc (rw e at h)) [
          | inl same ↦ inl same
          | inr there ↦ inr (find_process-cons p rc.pid ps there)
        ]
      ]

  -- The settled list is as orderly as the list was.
  pub record IsReady (rank : ℤ → ℕ) (procs : List (Process V)) : Type 0 where
    pub distinct : AllDistinct procs
    pub ranked : AllRanked rank procs
    pub found : AllFound procs procs

  IsSettled-IsReady :
      (rank : ℤ → ℕ) (procs out : List (Process V))
      → IsOrderly rank procs
      → IsSettled procs out
      → IsReady rank out
  IsSettled-IsReady rank procs out h (inl e) =
      subst (IsReady rank) (sym e)
        (record { distinct = h.distinct; ranked = h.ranked; found = h.found })
  IsSettled-IsReady rank procs out h (inr (rc, n, there, e)) =
      let own : IsFound procs (some rc.pid) = elim (find_rc-IsFound none procs rc there) [
        | inl odd ↦ cc
        | inr found ↦ found
      ] in
      subst (IsReady rank) (sym e) (record {
        distinct = AllDistinct-adopt rc n procs h.distinct;
        ranked = AllRanked-adopt rank rc n procs h.ranked (h.lower rc there);
        found = AllFound-adopt rc n procs procs own h.found;
      })

  -- What `settle` makes of an orderly list.
  pub settle-IsReady :
      (rank : ℤ → ℕ) (depth : ℕ) (accurate : Bool) (procs : List (Process V))
      → IsOrderly rank procs
      → ((pid : ℤ) → rank pid ≤ depth)
      → (out : List (Process V) × Lists) × (settle depth accurate procs ≡ some out)
        × IsBuilt out.0 out.1
        × IsSettled procs out.0
        × IsReady rank out.0
  unfolding settle
  settle-IsReady rank depth true procs h deep = (
    (procs, build empty_lists procs),
    refl,
    build-IsBuilt procs,
    inl refl,
    IsSettled-IsReady rank procs procs h (inl refl),
  )
  settle-IsReady rank depth false procs h deep =
      let (out, run, fits, settled) =
        update_ppids_for_daemons-IsSettled rank depth procs (build empty_lists procs) h.ranked deep
          (build-IsBuilt procs) in
      (out, run, fits, settled, IsSettled-IsReady rank procs out.0 h settled)
