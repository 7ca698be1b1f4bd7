-- ===== src/Parse/Meminfo/Laws.antt =====
-- What the memory samples are sure to hold.
use mathlib.Core.Path.{subst}
use bootchart.Prelude.{
  ℕ, ◌≡◌, refl, inl, inr, Bool, true, some, List, [], ◌∷◌, Text, ◌&&◌, Bool-cases, arith,
}
use bootchart.Prelude.Dict.{Dict, text_key, contains, get}
use bootchart.Prelude.Results.{ok, ok-injective, >>=-eq-ok}
use bootchart.Parse.Blocks.{TimedBlock, parse_timed_blocks}
use bootchart.Parse.Meminfo.{
  MemSample, used_values, has_all, valid, add_values, mem_samples, parse_proc_meminfo_log,
}

-- A lookup of every name finds a value.
abbrev pub HasValues : List Text → Dict Text ℕ → Type 0
HasValues [] records = Unit
HasValues (v ∷ vs) records = ((n : ℕ) × (get records v ≡ some n)) × HasValues vs records

abbrev pub AllHaveValues : List MemSample → Type 0
AllHaveValues [] = Unit
AllHaveValues (s ∷ ss) = HasValues used_values s.records × AllHaveValues ss

get-contains :
    (records : Dict Text ℕ) (v : Text)
    → contains records v ≡ true
    → (n : ℕ) × (get records v ≡ some n)
unfolding contains get
get-contains [] v h = cc
get-contains ((k, n) ∷ records) v h = elim (Bool-cases (text_key.eq k v)) [
  | inl e ↦ (n, rw e refl)
  | inr e ↦ let (m, found) = get-contains records v (rw e at h) in (m, rw e found)
]

split_and : (a b : Bool) → (a && b) ≡ true → (a ≡ true) × (b ≡ true)
split_and a b h = ground arith

has_all-HasValues :
    (vs : List Text) (records : Dict Text ℕ) → has_all vs records ≡ true → HasValues vs records
unfolding has_all
has_all-HasValues [] records h = tt
has_all-HasValues (v ∷ vs) records h =
    let (first, rest) = split_and (contains records v) (has_all vs records) h in
    (get-contains records v first, has_all-HasValues vs records rest)

mem_samples-AllHaveValues : (bs : List TimedBlock) → AllHaveValues (mem_samples bs)
unfolding mem_samples valid
mem_samples-AllHaveValues [] = tt
mem_samples-AllHaveValues (b ∷ bs) =
    elim (Bool-cases (has_all used_values (add_values [] b.lines))) [
      | inl e ↦
          rw e
            (has_all-HasValues used_values (add_values [] b.lines) e, mem_samples-AllHaveValues bs)
      | inr e ↦ rw e (mem_samples-AllHaveValues bs)
    ]

-- In every sample that the memory log yields, each of the six values that the chart reads is there.
pub parse_proc_meminfo_log-AllHaveValues :
    (text : Text) (samples : List MemSample)
    → parse_proc_meminfo_log text ≡ ok samples
    → AllHaveValues samples
unfolding parse_proc_meminfo_log
parse_proc_meminfo_log-AllHaveValues text samples h =
    let (blocks, read, same) = >>=-eq-ok (parse_timed_blocks text) (λ bs. ok (mem_samples bs)) h in
    subst AllHaveValues (ok-injective same) (mem_samples-AllHaveValues blocks)
