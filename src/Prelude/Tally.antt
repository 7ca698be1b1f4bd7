-- ===== src/Prelude/Tally.antt =====
-- How often an integer occurs in a list; lists with the same numbers of every integer are
-- permutations.
use mathlib.Core.List.Perm
use mathlib.Core.List.{Perm, List, [], ◌∷◌, ◌++◌}
use mathlib.Core.Path.{◌≡◌, refl, ap}
use mathlib.Core.Logic.{inl, inr}
use Prim.Native.Nat.{ℕ, suc, ◌+◌, ◌≤◌}
use bootchart.Prelude.Lists.{length}
use bootchart.Prelude.Tests.{Bool-cases, if◌then◌else◌}
use bootchart.Prelude.Int.{ℤ, eqb_ℤ, eqb_ℤ_iff}
use native.Mathlib.Omega.{arith}

unfoldable pub tally : ℤ → ℤ → ℕ
tally j k = if eqb_ℤ k j then 1 else 0

unfoldable pub occ : ℤ → List ℤ → ℕ
occ j [] = 0
occ j (k ∷ ks) = tally j k + occ j ks

pub tally_self : (j : ℤ) → tally j j ≡ 1
unfolding tally
tally_self j = rw ((eqb_ℤ_iff j j).1 refl) refl

pub occ-append : (j : ℤ) (xs ys : List ℤ) → occ j (xs ++ ys) ≡ occ j xs + occ j ys
unfolding occ
occ-append j [] ys = omega arith
occ-append j (x ∷ xs) ys = omega (arith, occ-append j xs ys)

-- The list without the first occurrence of `j`.
unfoldable erase : ℤ → List ℤ → List ℤ
erase j [] = []
erase j (k ∷ ks) = if eqb_ℤ k j then ks else k ∷ erase j ks

erase-perm : (j : ℤ) (ks : List ℤ) → 1 ≤ occ j ks → Perm (j ∷ erase j ks) ks
unfolding occ erase tally
erase-perm j [] h = absurd (omega (arith, h))
erase-perm j (k ∷ ks) h = elim (Bool-cases (eqb_ℤ k j)) [
  | inl e ↦ rw (e, (eqb_ℤ_iff k j).0 e) Perm.rfl
  | inr e ↦
      let none_here : tally j k ≡ 0 = rw e refl in
      let more : 1 ≤ occ j ks = omega (arith, h, none_here) in
      rw e (Perm.trans (Perm.swap k j (erase j ks)) (Perm.cons k (erase-perm j ks more)))
]

occ-perm : (i j : ℤ) (ks : List ℤ) → 1 ≤ occ j ks → occ i (j ∷ erase j ks) ≡ occ i ks
unfolding occ erase tally
occ-perm i j [] h = absurd (omega (arith, h))
occ-perm i j (k ∷ ks) h = elim (Bool-cases (eqb_ℤ k j)) [
  | inl e ↦ rw (e, (eqb_ℤ_iff k j).0 e) refl
  | inr e ↦
      let none_here : tally j k ≡ 0 = rw e refl in
      let more : 1 ≤ occ j ks = omega (arith, h, none_here) in
      let rest = occ-perm i j ks more in rw e (omega (arith, rest))
]

pub perm_of_occ : (xs ys : List ℤ) → ((j : ℤ) → occ j xs ≡ occ j ys) → Perm xs ys
unfolding occ
perm_of_occ [] [] same = Perm.rfl
perm_of_occ [] (y ∷ ys) same = absurd (omega (arith, same y, tally_self y))
perm_of_occ (x ∷ xs) ys same =
    let there : 1 ≤ occ x ys = omega (arith, same x, tally_self x) in
    Perm.trans
      (Perm.cons x
        (perm_of_occ xs (erase x ys) (λ j. omega (arith, same j, occ-perm j x ys there))))
      (erase-perm x ys there)

length-erase : (j : ℤ) (ks : List ℤ) → 1 ≤ occ j ks → length ks ≡ suc (length (erase j ks))
unfolding occ erase tally
length-erase j [] h = absurd (omega (arith, h))
length-erase j (k ∷ ks) h = elim (Bool-cases (eqb_ℤ k j)) [
  | inl e ↦ rw e refl
  | inr e ↦
      let none_here : tally j k ≡ 0 = rw e refl in
      let more : 1 ≤ occ j ks = omega (arith, h, none_here) in
      rw e (ap suc (length-erase j ks more))
]

pub length_of_occ : (xs ys : List ℤ) → ((j : ℤ) → occ j xs ≡ occ j ys) → length xs ≡ length ys
unfolding occ
length_of_occ [] [] same = refl
length_of_occ [] (y ∷ ys) same = absurd (omega (arith, same y, tally_self y))
length_of_occ (x ∷ xs) ys same =
    let there : 1 ≤ occ x ys = omega (arith, same x, tally_self x) in
    let rest = length_of_occ xs (erase x ys) (λ j. omega (arith, same j, occ-perm j x ys there)) in
    omega (arith, rest, length-erase x ys there)
