-- ===== src/Trace/Compile/Parenting.antt =====
-- The search for the parents in `compile`, process by process.
use bootchart.Prelude.{
  ℕ, ◌<◌, ◌≡◌, refl, ◌∙◌, inl, inr, Bool-cases, Option, none, some, [], ◌∷◌, if◌then◌else◌,
}
use bootchart.Prelude.Int.{ℤ, pos, ◌*ℤ◌, eqb_ℤ}
use bootchart.Prelude.Dict.{Dict, AllPairs, int_key, map_values, try_map_values}
use bootchart.Samples.{Process}
use bootchart.Trace.Parents.Laws.{Descends, Nearest, find_parent_id_for-Nearest}
use bootchart.Trace.Compile.{reparent, reparent_all, set_ppid, real_pid}
use bootchart.Trace.Compile.Laws.{AllDescend}

module _ {V : Type 0} where
  -- `q` has the command line of `p`, and `ppid` for its parent.
  pub record HasPpid (ppid : ℤ) (p q : Process V) : Type 0 where
    pub named : q.exe ≡ p.exe
    pub called : q.args ≡ p.args
    pub parented : q.ppid ≡ ppid

  -- `q` is `p` with the nearest ancestor of the log for its parent, which keeps the old one if there
  -- is no such ancestor.
  pub record Adopted (parent_map : Dict ℤ ℤ) (map : Dict ℤ (Process V)) (p q : Process V)
      : Type 0 where
    pub ancestor : ℤ
    pub nearest : Nearest parent_map map ancestor (real_pid p)
    pub has_ppid : HasPpid (if eqb_ℤ ancestor (pos 0) then p.ppid else ancestor *ℤ pos 1000) p q

  -- Without a log of parents every process keeps its own.
  abbrev pub Reparents : Option (Dict ℤ ℤ) → Dict ℤ (Process V) → Process V → Process V → Type 0
  Reparents none map p q = HasPpid p.ppid p q
  Reparents (some parent_map) map p q = Adopted parent_map map p q

  set_ppid-HasPpid :
      (p : Process V) (r : ℤ)
      → HasPpid (if eqb_ℤ r (pos 0) then p.ppid else r *ℤ pos 1000) p (set_ppid p r)
  unfolding set_ppid
  set_ppid-HasPpid p r = elim (Bool-cases (eqb_ℤ r (pos 0))) [
    | inl e ↦ rw e (record { named = refl; called = refl; parented = refl })
    | inr e ↦ rw e (record { named = refl; called = refl; parented = refl })
  ]

  pub HasPpid-trans :
      {ppid : ℤ} {p q s : Process V} → HasPpid ppid p q → HasPpid q.ppid q s → HasPpid ppid p s
  HasPpid-trans h k = record {
    named = k.named ∙ h.named;
    called = k.called ∙ h.called;
    parented = k.parented ∙ h.parented;
  }

  reparent-Adopted :
      (rank : ℤ → ℕ) (depth : ℕ) (parent_map : Dict ℤ ℤ) (map : Dict ℤ (Process V))
      → Descends parent_map rank
      → ((pid : ℤ) → rank pid < depth)
      → (p : Process V)
      → (q : Process V) × (reparent depth parent_map map p ≡ some q) × Adopted parent_map map p q
  unfolding reparent
  reparent-Adopted rank depth parent_map map down deep p =
      let (r, run, near) =
        find_parent_id_for-Nearest parent_map map rank depth (real_pid p) down
          (deep (real_pid p)) in
      (
        set_ppid p r,
        rw run refl,
        record { ancestor = r; nearest = near; has_ppid = set_ppid-HasPpid p r },
      )

  try_map_values-AllPairs :
      (R : Process V → Process V → Type 0) (f : Process V → Option (Process V))
      (map : Dict ℤ (Process V))
      → ((p : Process V) → (q : Process V) × (f p ≡ some q) × R p q)
      → (map' : Dict ℤ (Process V)) × (try_map_values f map ≡ some map') × AllPairs R map map'
  unfolding try_map_values
  try_map_values-AllPairs R f [] h = ([], refl, tt)
  try_map_values-AllPairs R f ((k, p) ∷ map) h =
      let (q, e, r) = h p in
      let (map', run, rs) = try_map_values-AllPairs R f map h in
      ((k, q) ∷ map', rw (e, run) refl, (refl, r, rs))

  pub AllPairs-weaken :
      (R S : Process V → Process V → Type 0) (d e : Dict ℤ (Process V))
      → ((p q : Process V) → R p q → S p q)
      → AllPairs R d e
      → AllPairs S d e
  AllPairs-weaken R S [] [] step h = tt
  AllPairs-weaken R S [] (x ∷ e) step h = h
  AllPairs-weaken R S (x ∷ d) [] step h = h
  AllPairs-weaken R S ((j, v) ∷ d) ((k, w) ∷ e) step (same, r, rs) =
      (same, step v w r, AllPairs-weaken R S d e step rs)

  AllPairs-refl :
      (R : Process V → Process V → Type 0) (map : Dict ℤ (Process V))
      → ((p : Process V) → R p p)
      → AllPairs R map map
  AllPairs-refl R [] h = tt
  AllPairs-refl R ((k, p) ∷ map) h = (refl, h p, AllPairs-refl R map h)

  pub AllPairs-map_values :
      (R S : Process V → Process V → Type 0) (g : Process V → Process V) (d e : Dict ℤ (Process V))
      → ((p q : Process V) → R p q → S p (g q))
      → AllPairs R d e
      → AllPairs S d (map_values g e)
  unfolding map_values
  AllPairs-map_values R S g [] [] step h = tt
  AllPairs-map_values R S g [] (x ∷ e) step h = h
  AllPairs-map_values R S g (x ∷ d) [] step h = h
  AllPairs-map_values R S g ((j, v) ∷ d) ((k, w) ∷ e) step (same, r, rs) =
      (same, step v w r, AllPairs-map_values R S g d e step rs)

  pub reparent_all-AllPairs :
      (rank : ℤ → ℕ) (depth : ℕ) (parent_map : Option (Dict ℤ ℤ)) (map : Dict ℤ (Process V))
      → AllDescend parent_map rank
      → ((pid : ℤ) → rank pid < depth)
      → (map' : Dict ℤ (Process V)) × (reparent_all depth parent_map map ≡ some map')
        × AllPairs (Reparents parent_map map) map map'
  unfolding reparent_all
  reparent_all-AllPairs rank depth none map down deep = (
    map,
    refl,
    AllPairs-refl (Reparents none map) map
        (λ p. record { named = refl; called = refl; parented = refl }),
  )
  reparent_all-AllPairs rank depth (some parent_map) map down deep =
      try_map_values-AllPairs (Adopted parent_map map) (reparent depth parent_map map) map
        (reparent-Adopted rank depth parent_map map down deep)

  -- What changes neither the command line nor the parent's pid keeps the relation.
  pub Reparents-step :
      (parent_map : Option (Dict ℤ ℤ)) (map : Dict ℤ (Process V)) (g : Process V → Process V)
      → ((q : Process V) → HasPpid q.ppid q (g q))
      → (p q : Process V) → Reparents parent_map map p q
      → Reparents parent_map map p (g q)
  Reparents-step none map g keep p q h = HasPpid-trans h (keep q)
  Reparents-step (some parent_map) map g keep p q h = record {
    ancestor = h.ancestor;
    nearest = h.nearest;
    has_ppid = HasPpid-trans h.has_ppid (keep q);
  }
