-- ===== src/Parse/Maps/Laws.antt =====
-- The number of CPUs.
use mathlib.Core.Path.{subst}
use bootchart.Prelude.{
  ℕ, zero, suc, ◌≤◌, ◌≡◌, inl, inr, Option, none, some, [], ◌∷◌, Text, codes, Option-cases, arith,
}
use bootchart.Prelude.Int.{ℤ, pos, negsuc}
use bootchart.Prelude.Dict.{Dict, get, text_key}
use bootchart.Prelude.Results.{ok, value_error, or_raise, >>=-eq-ok, ok-injective}
use bootchart.Prelude.Words.{int}
use bootchart.Parse.Maps.{at_least_one, last_number, num_cpus_of_model, num_cpus_of, get_num_cpus}

at_least_one-positive : (n : ℤ) → 1 ≤ at_least_one n
unfolding at_least_one
at_least_one-positive (pos zero) = omega arith
at_least_one-positive (pos (suc n)) = omega arith
at_least_one-positive (negsuc n) = omega arith

num_cpus_of_model-positive : (model : Option Text) → 1 ≤ num_cpus_of_model model
unfolding num_cpus_of_model
num_cpus_of_model-positive none = omega arith
num_cpus_of_model-positive (some model) = elim (Option-cases (last_number model)) [
  | inl e ↦ rw (num_cpus_of_model, e) (omega arith)
  | inr (n, e) ↦ rw (num_cpus_of_model, e) (at_least_one-positive (pos n))
]

num_cpus_of-positive :
    (headers : Dict Text Text) (o : Option Text) (n : ℕ) → num_cpus_of headers o ≡ ok n → 1 ≤ n
unfolding num_cpus_of
num_cpus_of-positive headers none n h =
    subst (λ x. 1 ≤ x) (ok-injective h)
      (num_cpus_of_model-positive (get headers (codes "system.cpu")))
num_cpus_of-positive headers (some []) n h =
    subst (λ x. 1 ≤ x) (ok-injective h)
      (num_cpus_of_model-positive (get headers (codes "system.cpu")))
num_cpus_of-positive headers (some (c ∷ s)) n h =
    let (m, read, e) =
      >>=-eq-ok (or_raise value_error (int (c ∷ s))) (λ m. ok (at_least_one m)) h in
    subst (λ x. 1 ≤ x) (ok-injective e) (at_least_one-positive m)

-- The number of CPUs that the headers give is never 0, whatever stands in them.
get_num_cpus-positive :
    (headers : Option (Dict Text Text)) (n : ℕ) → get_num_cpus headers ≡ ok n → 1 ≤ n
unfolding get_num_cpus
get_num_cpus-positive none n h = subst (λ x. 1 ≤ x) (ok-injective h) (omega arith)
get_num_cpus-positive (some headers) n h =
    num_cpus_of-positive headers (get headers (codes "system.cpu.num")) n h
