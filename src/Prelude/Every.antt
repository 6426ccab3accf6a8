-- ===== src/Prelude/Every.antt =====
-- `All` and `map` at an index.
use mathlib.Core.Path.{◌≡◌, refl, subst, sym, ap, ◌∙◌}
use mathlib.Core.Option.{some}
use mathlib.Core.List.{List, [], ◌∷◌, ◌++◌, map}
use Prim.Native.Nat.{ℕ, zero, suc}
use dice_server.Prelude.Lists.{All, get_elem?, set}

module _ {ℓ κ} {A : Type ℓ} (P : A → Type κ) where
  pub All-get_elem? : (xs : List A) (i : ℕ) (x : A) → All P xs → get_elem? xs i ≡ some x → P x
  All-get_elem? [] i x h e = absurd cc
  All-get_elem? (y ∷ xs) zero x h e = let same : y ≡ x = cc in subst P same h.0
  All-get_elem? (y ∷ xs) (suc i) x h e = All-get_elem? xs i x h.1 e

  pub All-set : (xs : List A) (i : ℕ) (v : A) → All P xs → P v → All P (set xs i v)
  All-set [] i v h p = tt
  All-set (x ∷ xs) zero v h p = (p, h.1)
  All-set (x ∷ xs) (suc i) v h p = (h.0, All-set xs i v h.1 p)

  pub All-append : (xs : List A) (x : A) → All P xs → P x → All P (xs ++ x ∷ [])
  All-append [] x h p = (p, tt)
  All-append (y ∷ xs) x h p = (h.0, All-append xs x h.1 p)

pub map-set {ℓ κ} :
    {A : Type ℓ} {B : Type κ} (f : A → B) (xs : List A) (i : ℕ) (x v : A)
    → get_elem? xs i ≡ some x
    → f v ≡ f x
    → map f (set xs i v) ≡ map f xs
map-set f [] i x v e same = refl
map-set f (y ∷ xs) zero x v e same =
    let here : y ≡ x = cc in ap (λ z. z ∷ map f xs) (same ∙ ap f (sym here))
map-set f (y ∷ xs) (suc i) x v e same = ap (λ zs. f y ∷ zs) (map-set f xs i x v e same)

pub get_elem?-map {ℓ κ} :
    {A : Type ℓ} {B : Type κ} (f : A → B) (xs : List A) (i : ℕ) (x : A)
    → get_elem? xs i ≡ some x
    → get_elem? (map f xs) i ≡ some (f x)
get_elem?-map f [] i x e = absurd cc
get_elem?-map f (y ∷ xs) zero x e = let here : y ≡ x = cc in ap (λ z. some (f z)) here
get_elem?-map f (y ∷ xs) (suc i) x e = get_elem?-map f xs i x e
