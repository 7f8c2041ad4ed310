-- ===== src/Prelude/Counting.antt =====
-- How many rows pass a test, with some rows taken out.
use Prim.Native.Nat.{◌+◌, ◌≤◌}
use mathlib.Core.Path.{◌≡◌, refl}
use mathlib.Core.Bool.{Bool, true, false, not}
use mathlib.Core.List.{List, [], ◌∷◌}
use native.Mathlib.Omega.{arith}
use pgmqtt.Prelude.Lists.{any, keep, count}

pub count-none {ℓ} : {A : Type ℓ} (p : A → Bool) (xs : List A) → any p xs ≡ false → count p xs ≡ 0
count-none p [] h = refl
count-none p (x ∷ xs) h = ground (arith, count-none p xs)

pub count-some {ℓ} : {A : Type ℓ} (p : A → Bool) (xs : List A) → any p xs ≡ true → 1 ≤ count p xs
count-some p [] h = absurd (ground arith)
count-some p (x ∷ xs) h = ground (arith, count-some p xs)

pub count-keep {ℓ} :
    {A : Type ℓ} (p q : A → Bool) (xs : List A)
    → ((x : A) → q x ≡ true → p x ≡ true)
    → count p xs ≡ count p (keep (λ x. not (q x)) xs) + count q xs
count-keep p q [] h = refl
count-keep p q (x ∷ xs) h = ground (arith, count-keep p q xs h, h x)

pub count-keep-le {ℓ} :
    {A : Type ℓ} (p q : A → Bool) (xs : List A) → count p (keep q xs) ≤ count p xs
count-keep-le p q [] = omega arith
count-keep-le p q (x ∷ xs) = ground (arith, count-keep-le p q xs)
