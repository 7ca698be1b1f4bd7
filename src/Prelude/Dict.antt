-- ===== src/Prelude/Dict.antt =====
-- Python's `dict`: the entries in the order in which their keys were first put in.
use mathlib.Core.Path.{◌≡◌, refl, ap}
use mathlib.Core.Logic.{◌↔◌, inl, inr}
use mathlib.Core.Bool.{Bool, true, false}
use mathlib.Core.Option.{Option, none, some}
use mathlib.Core.List.{List, [], ◌∷◌}
use native.Mathlib.Omega.{arith}
use bootchart.Prelude.{Bool-cases, ◌>>=◌, if◌then◌else◌, text_eq, text_eq_iff, Text}
use bootchart.Prelude.Int.{ℤ, eqb_ℤ, eqb_ℤ_iff}

-- Keys that `==` compares.
pub record Key (K : Type 0) : Type 0 where
  pub eq : K → K → Bool
  pub eq_iff : (a b : K) → (eq a b ≡ true) ↔ (a ≡ b)

instance abbrev pub int_key : Key ℤ
int_key = record { eq = eqb_ℤ; eq_iff = eqb_ℤ_iff }

instance abbrev pub text_key : Key Text
text_key = record { eq = text_eq; eq_iff = text_eq_iff }

abbrev pub Dict : Type 0 → Type 0 → Type 0
Dict K V = List (K × V)

module _ {K V : Type 0} ⦃key : Key K⦄ where
  -- d.get(k)
  unfoldable pub get : Dict K V → K → Option V
  get [] k = none
  get ((j, v) ∷ d) k = if key.eq j k then some v else get d k

  -- k in d
  unfoldable pub contains : Dict K V → K → Bool
  contains [] k = false
  contains ((j, v) ∷ d) k = if key.eq j k then true else contains d k

  -- d[k] = v
  unfoldable pub put : Dict K V → K → V → Dict K V
  put [] k v = (k, v) ∷ []
  put ((j, w) ∷ d) k v = if key.eq j k then (j, v) ∷ d else (j, w) ∷ put d k v

  -- Every entry satisfies `P`.
  abbrev pub AllEntries : (K → V → Type 0) → Dict K V → Type 0
  AllEntries P [] = Unit
  AllEntries P ((j, v) ∷ d) = P j v × AllEntries P d

  pub get-put :
      (d : Dict K V) (k j : K) (v : V)
      → get (put d k v) j ≡ (if key.eq k j then some v else get d j)
  unfolding get put
  get-put [] k j v = refl
  get-put ((i, w) ∷ d) k j v =
      ground (arith, key.eq_iff k j, key.eq_iff i k, key.eq_iff i j, get-put d k j v)

  pub AllEntries-put :
      (P : K → V → Type 0) (d : Dict K V) (k : K) (v : V)
      → AllEntries P d
      → P k v
      → AllEntries P (put d k v)
  unfolding put
  AllEntries-put P [] k v h p = (p, tt)
  AllEntries-put P ((j, w) ∷ d) k v h p = elim (Bool-cases (key.eq j k)) [
    | inl e ↦ rw e (rw ((key.eq_iff j k).0 e) p, h.1)
    | inr e ↦ rw e (h.0, AllEntries-put P d k v h.1 p)
  ]

  pub AllEntries-get :
      (P : K → V → Type 0) (d : Dict K V) (k : K) (v : V)
      → AllEntries P d
      → get d k ≡ some v
      → P k v
  unfolding get
  AllEntries-get P [] k v h e = cc
  AllEntries-get P ((j, w) ∷ d) k v h e = elim (Bool-cases (key.eq j k)) [
    | inl b ↦
        let found : some w ≡ some v = rw b at e in
        let same : w ≡ v = cc found in rw ((key.eq_iff j k).0 b, same) at h.0
    | inr b ↦ AllEntries-get P d k v h.1 (rw b at e)
  ]

module _ {K V : Type 0} ⦃key : Key K⦄ where
  -- `for v in d.values():` changing the value object
  unfoldable pub map_values : (V → V) → Dict K V → Dict K V
  map_values f [] = []
  map_values f ((k, v) ∷ d) = (k, f v) ∷ map_values f d

  -- The same with a change that may have no result.
  unfoldable pub try_map_values : (V → Option V) → Dict K V → Option (Dict K V)
  try_map_values f [] = some []
  try_map_values f ((k, v) ∷ d) = do v' ← f v; d' ← try_map_values f d; some ((k, v') ∷ d')

  pub contains-map_values :
      (f : V → V) (d : Dict K V) (k : K) → contains (map_values f d) k ≡ contains d k
  unfolding map_values contains
  contains-map_values f [] k = refl
  contains-map_values f ((j, v) ∷ d) k =
      ap (λ b. if key.eq j k then true else b) (contains-map_values f d k)

  pub AllEntries-map_values :
      (P Q : K → V → Type 0) (f : V → V) (d : Dict K V)
      → ((k : K) (v : V) → P k v → Q k (f v))
      → AllEntries P d
      → AllEntries Q (map_values f d)
  unfolding map_values
  AllEntries-map_values P Q f [] step h = tt
  AllEntries-map_values P Q f ((j, v) ∷ d) step h =
      (step j v h.0, AllEntries-map_values P Q f d step h.1)

  pub AllEntries-weaken :
      (P Q : K → V → Type 0) (d : Dict K V)
      → ((k : K) (v : V) → P k v → Q k v)
      → AllEntries P d
      → AllEntries Q d
  AllEntries-weaken P Q [] step h = tt
  AllEntries-weaken P Q ((k, v) ∷ d) step h = (step k v h.0, AllEntries-weaken P Q d step h.1)

  pub AllEntries-always :
      (P : K → V → Type 0) (d : Dict K V) → ((k : K) (v : V) → P k v) → AllEntries P d
  AllEntries-always P [] h = tt
  AllEntries-always P ((j, v) ∷ d) h = (h j v, AllEntries-always P d h)

  -- d.keys()
  unfoldable pub keys : Dict K V → List K
  keys [] = []
  keys ((k, v) ∷ d) = k ∷ keys d

  pub keys-map_values : (f : V → V) (d : Dict K V) → keys (map_values f d) ≡ keys d
  unfolding keys map_values
  keys-map_values f [] = refl
  keys-map_values f ((j, v) ∷ d) = ap (◌∷◌ j) (keys-map_values f d)

-- Two maps with the same keys in the same order, whose values are related.
abbrev pub AllPairs : {K V : Type 0} → (V → V → Type 0) → Dict K V → Dict K V → Type 0
AllPairs R [] [] = Unit
AllPairs R ((j, v) ∷ d) ((k, w) ∷ e) = (j ≡ k) × R v w × AllPairs R d e
AllPairs R _ _ = ⊥

module _ {K V : Type 0} ⦃key : Key K⦄ where
  -- A change of every value relates a map to the result.
  pub AllPairs-map_values_own :
      (R : V → V → Type 0) (g : V → V) (d : Dict K V)
      → AllEntries (λ k v. R v (g v)) d
      → AllPairs R d (map_values g d)
  unfolding map_values
  AllPairs-map_values_own R g [] h = tt
  AllPairs-map_values_own R g ((k, v) ∷ d) h = (refl, h.0, AllPairs-map_values_own R g d h.1)
