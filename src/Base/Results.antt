-- ===== src/Base/Results.antt =====
-- `Result<T, E>`.

pub data Result {ℓ κ} (A : Type ℓ) (E : Type κ) : Type (ℓ ⊔ κ) where
  ok : A → Result A E
  err : E → Result A E

-- `Result::map`.
abbrev pub map_ok {ℓ κ μ} :
    {A : Type ℓ} {B : Type κ} {E : Type μ} → (A → B) → Result A E → Result B E
map_ok f (ok a) = ok (f a)
map_ok f (err e) = err e

-- `?` on a result, for functions that return the same error type.
abbrev pub and_then {ℓ κ μ} :
    {A : Type ℓ} {B : Type κ} {E : Type μ} → Result A E → (A → Result B E) → Result B E
and_then (ok a) f = f a
and_then (err e) f = err e
