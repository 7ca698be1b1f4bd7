-- ===== src/Tree/Exploders.antt =====
-- ProcessTree.merge_exploders. The test is `processes in processes`: the set of names is looked up in
-- itself, and not the command line of `p`.
use bootchart.Prelude.{
  ℕ, ◌+◌, ◌≡◌, refl, Bool, true, false, ◌&&◌, ◌||◌, Option, none, some, List, [], ◌∷◌, Text,
  text_eq, if◌then◌else◌, ◌>>=◌, ltb, map,
}
use bootchart.Tree.Forest.{Forest, nil, node, len}

-- What a Python set is asked for and holds: a string, or a set of strings. A set that is looked up
-- in a set stands for the frozen set of its elements.
pub data Element : Type 0 where
  name : Text → Element
  frozen : List Text → Element

unfoldable pub has_name : Text → List Text → Bool
has_name s [] = false
has_name s (t ∷ ts) = text_eq s t || has_name s ts

unfoldable pub is_subset : List Text → List Text → Bool
unfolding has_name
is_subset [] ts = true
is_subset (s ∷ ss) ts = has_name s ts && is_subset ss ts

unfoldable pub element_eq : Element → Element → Bool
unfolding is_subset
element_eq (name s) (name t) = text_eq s t
element_eq (frozen ss) (frozen ts) = is_subset ss ts && is_subset ts ss
element_eq _ _ = false

-- `x in elements`
unfoldable pub contains : Element → List Element → Bool
unfolding element_eq
contains x [] = false
contains x (y ∷ ys) = element_eq x y || contains x ys

not_contains : (names processes : List Text) → contains (frozen names) (map name processes) ≡ false
unfolding contains
not_contains names [] = refl
not_contains names (t ∷ ts) = not_contains names ts

module _ {V : Type 0} where
  -- The tree and the number of processes merged away. `none` is the AttributeError of the branch
  -- under the test, which calls a method `getProcessMap` that the class has not.
  unfoldable pub merge_exploders : List Text → Forest V → Option (Forest V × ℕ)
  unfolding contains
  merge_exploders processes nil = some (nil, 0)
  merge_exploders processes (node p c r) =
      let below : Option (Forest V × ℕ) = merge_exploders processes c in
      do
        (c', k) ←
            (if contains (frozen processes) (map name processes) && ltb 0 (len c)
              then none
              else below)
        (r', m) ← merge_exploders processes r
        some (node p c' r', k + m)

  -- Whatever names are given, `merge_exploders` returns the tree as it was, and counts no merge.
  pub merge_exploders_unchanged :
      (processes : List Text) (f : Forest V) → merge_exploders processes f ≡ some (f, 0)
  unfolding merge_exploders
  merge_exploders_unchanged processes nil = refl
  merge_exploders_unchanged processes (node p c r) =
      rw
        (
          not_contains processes processes,
          merge_exploders_unchanged processes c,
          merge_exploders_unchanged processes r,
        )
        refl
