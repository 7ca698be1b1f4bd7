-- ===== src/Prelude/Results.antt =====
-- Results of code that may raise. An exception ends the parse of its file.
use mathlib.Core.Option.{Option, none, some}
use mathlib.Core.List.{List, [], ◌∷◌}
use mathlib.Core.Path.{◌≡◌, refl, subst}

pub data Error : Type 0 where
  -- ParseError of parsing.py
  parse_error : Error
  -- ValueError of `int` and `float`
  value_error : Error
  -- IndexError of a list that is too short
  index_error : Error
  -- KeyError of a missing key
  key_error : Error
  -- TypeError of an operand of the wrong type
  type_error : Error
  -- ZeroDivisionError of a quotient
  zero_division : Error
  -- OSError of a file that cannot be read
  os_error : Error
  -- AttributeError of an object without the attribute
  attribute_error : Error
  -- RecursionError of a recursion that does not end
  recursion_error : Error

-- The exception, or what the code returns.
pub data Result {ℓ} (X : Type ℓ) : Type ℓ where
  err : Error → Result X
  ok : X → Result X

-- A value that may be missing, with the exception that its absence raises.
abbrev pub or_raise {ℓ} : {X : Type ℓ} → Error → Option X → Result X
or_raise error (some x) = ok x
or_raise error none = err error

infixl 5 ◌>>=◌
abbrev pub ◌>>=◌ {ℓ κ} : {X : Type ℓ} {Y : Type κ} → Result X → (X → Result Y) → Result Y
err error >>= next = err error
ok x >>= next = next x

-- Code that has returned has not raised before.
pub >>=-eq-ok {ℓ κ} :
    {X : Type ℓ} {Y : Type κ} (r : Result X) (next : X → Result Y) {y : Y}
    → (r >>= next) ≡ ok y
    → (x : X) × (r ≡ ok x) × (next x ≡ ok y)
>>=-eq-ok (err error) next raised = cc
>>=-eq-ok (ok x) next returned = (x, refl, returned)

pub ok-injective {ℓ} : {X : Type ℓ} {x y : X} → ok x ≡ ok y → x ≡ y
ok-injective same = cc

-- A loop whose body may raise: `for a in items: s = step(s, a)`.
unfoldable pub fold_results {ℓ} : {S A : Type ℓ} → (S → A → Result S) → S → List A → Result S
fold_results step s [] = ok s
fold_results step s (a ∷ rest) = step s a >>= λ s'. fold_results step s' rest

-- What every round keeps holds after the loop.
pub fold_results_inv {ℓ κ} :
    {S A : Type ℓ} (P : S → Type κ) (step : S → A → Result S)
    → ((s : S) (a : A) (s' : S) → P s → step s a ≡ ok s' → P s')
    → (s : S) (items : List A) (s' : S) → P s
    → fold_results step s items ≡ ok s'
    → P s'
unfolding fold_results
fold_results_inv P step keep s [] s' p h = subst P (ok-injective h) p
fold_results_inv P step keep s (a ∷ rest) s' p h =
    let (s1, first, later) = >>=-eq-ok (step s a) (λ t. fold_results step t rest) h in
    fold_results_inv P step keep s1 rest s' (keep s a s1 p first) later
