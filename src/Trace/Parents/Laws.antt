-- ===== src/Trace/Parents/Laws.antt =====
-- What `find_parent_id_for` finds.
use bootchart.Prelude.{
  ℕ, zero, suc, ◌<◌, ◌≡◌, ◌≢◌, refl, ◌∙◌, ◌⊎◌, inl, inr, Bool, true, false, Option, none, some,
  if◌then◌else◌, Bool-cases, Option-cases, arith,
}
use bootchart.Prelude.Int.{ℤ, pos, eqb_ℤ, eqb_ℤ_iff}
use bootchart.Prelude.Dict.{Dict, int_key}
use bootchart.Samples.{Process}
use bootchart.Trace.Parents.{has_process, parent_of, find_parent_id_for}

-- Every step to a parent comes down in `rank`: the parents do not go round in a circle.
abbrev pub Descends : Dict ℤ ℤ → (ℤ → ℕ) → Type 0
Descends parent_map rank =
    (pid ppid : ℤ) → parent_of parent_map pid ≡ some ppid → rank ppid < rank pid

module _ {V : Type 0} (parent_map : Dict ℤ ℤ) (process_map : Dict ℤ (Process V)) where
  abbrev parent : ℤ → Option ℤ
  parent = parent_of parent_map

  abbrev has : ℤ → Bool
  has = has_process parent_map process_map

  abbrev find : ℕ → ℤ → Option ℤ
  find = find_parent_id_for parent_map process_map

  -- 0 and a pid whose entry is missing or 0.
  abbrev pub NoParent : ℤ → Type 0
  NoParent pid = (pid ≡ pos 0) ⊎ (parent pid ≡ none)

  -- `r` is the nearest proper ancestor of `pid` that has a process, or 0 where the line of parents
  -- ends with none.
  pub data Nearest (r : ℤ) : ℤ → Type 0 where
    end : {pid : ℤ} → NoParent pid → r ≡ pos 0 → Nearest r pid
    found : {pid : ℤ} → pid ≢ pos 0 → parent pid ≡ some r → has r ≡ true → Nearest r pid
    further :
        {pid : ℤ} (ppid : ℤ)
        → pid ≢ pos 0
        → parent pid ≡ some ppid
        → has ppid ≡ false
        → Nearest r ppid
        → Nearest r pid

  at_root : (depth : ℕ) (pid : ℤ) → NoParent pid → find (suc depth) pid ≡ some (pos 0)
  unfolding find_parent_id_for
  at_root depth pid (inl e) = rw ((eqb_ℤ_iff pid (pos 0)).1 e) refl
  at_root depth pid (inr e) = elim (Bool-cases (eqb_ℤ pid (pos 0))) [
    | inl b ↦ rw b refl
    | inr b ↦ rw (b, e) refl
  ]

  at_parent :
      (depth : ℕ) (pid ppid : ℤ)
      → eqb_ℤ pid (pos 0) ≡ false
      → parent pid ≡ some ppid
      → find (suc depth) pid ≡ (if has ppid then some ppid else find depth ppid)
  unfolding find_parent_id_for
  at_parent depth pid ppid b e = rw (b, e) refl

  -- Where the parents do not go round in a circle, `find_parent_id_for` ends, and finds the nearest
  -- ancestor that has a process, or 0.
  pub find_parent_id_for-Nearest :
      (rank : ℤ → ℕ) (depth : ℕ) (pid : ℤ)
      → Descends parent_map rank
      → rank pid < depth
      → (r : ℤ) × (find_parent_id_for parent_map process_map depth pid ≡ some r) × Nearest r pid
  find_parent_id_for-Nearest rank zero pid down lt = elim lt [ ]
  find_parent_id_for-Nearest rank (suc depth) pid down lt = elim (Bool-cases (eqb_ℤ pid (pos 0))) [
    | inl b ↦
        let root : NoParent pid = inl ((eqb_ℤ_iff pid (pos 0)).0 b) in
        (pos 0, at_root depth pid root, Nearest.end root refl)
    | inr b ↦
        let apart : pid ≢ pos 0 = (λ h. cc (b, (eqb_ℤ_iff pid (pos 0)).1 h)) in
        elim (Option-cases (parent pid)) [
          | inl e ↦ (pos 0, at_root depth pid (inr e), Nearest.end (inr e) refl)
          | inr (ppid, e) ↦ elim (Bool-cases (has ppid)) [
            | inl h ↦ (ppid, at_parent depth pid ppid b e ∙ rw h refl, Nearest.found apart e h)
            | inr h ↦
                let less : rank ppid < rank pid = down pid ppid e in
                let (r, run, near) =
                  find_parent_id_for-Nearest rank depth ppid down (omega arith) in
                (r, at_parent depth pid ppid b e ∙ rw h run, Nearest.further ppid apart e h near)
          ]
        ]
  ]

  -- Pids without a process whose parents are again such pids.
  pub record Circle (P : ℤ → Type 0) : Type 0 where
    pub next : (pid : ℤ) → P pid → ℤ
    pub inside : (pid : ℤ) (h : P pid) → P (next pid h)
    pub apart : (pid : ℤ) → P pid → eqb_ℤ pid (pos 0) ≡ false
    pub step : (pid : ℤ) (h : P pid) → parent pid ≡ some (next pid h)
    pub missing : (pid : ℤ) (h : P pid) → has (next pid h) ≡ false

  -- From a pid in such a circle the recursion ends at no depth.
  pub find_parent_id_for_circle :
      (P : ℤ → Type 0) (circle : Circle P) (depth : ℕ) (pid : ℤ)
      → P pid
      → find_parent_id_for parent_map process_map depth pid ≡ none
  unfolding find_parent_id_for
  find_parent_id_for_circle P circle zero pid h = refl
  find_parent_id_for_circle P circle (suc depth) pid h =
      at_parent depth pid (circle.next pid h) (circle.apart pid h) (circle.step pid h)
      ∙ rw (circle.missing pid h)
          (find_parent_id_for_circle P circle depth (circle.next pid h) (circle.inside pid h))
