-- ===== src/Base/Lists.antt =====
-- Lists measured by native numbers, predicates by recursion, and lists searched by a Boolean test.
use Prim.Native.Nat.{ℕ, zero, suc, ◌+◌, ◌-◌, ◌≤◌, ◌<◌}
use mathlib.Core.Path.{◌≡◌, refl, sym, ap, ◌∙◌}
use mathlib.Core.Bool.{Bool, false, ◌||◌}
use mathlib.Core.List.{List, [], ◌∷◌, ◌++◌}
use native.Mathlib.Omega.{arith}
use selective_mirror.Base.Tests.{if◌then◌else◌}

module _ {ℓ} {A : Type ℓ} where
  abbrev pub length : List A → ℕ
  length [] = 0
  length (x ∷ xs) = suc (length xs)

  pub length-append : (xs ys : List A) → length (xs ++ ys) ≡ length xs + length ys
  length-append [] ys = omega arith
  length-append (x ∷ xs) ys = omega (arith, length-append xs ys)

  -- Some entry passes the test.
  unfoldable pub any : (A → Bool) → List A → Bool
  any p [] = false
  any p (x ∷ xs) = p x || any p xs

  -- The entries that pass the test.
  unfoldable pub keep : (A → Bool) → List A → List A
  keep p [] = []
  keep p (x ∷ xs) = if p x then x ∷ keep p xs else keep p xs

  abbrev pub All {κ} : (A → Type κ) → List A → Type κ
  All P [] = Unit
  All P (x ∷ xs) = P x × All P xs

  pub All-append {κ} : (P : A → Type κ) (xs ys : List A) → All P xs → All P ys → All P (xs ++ ys)
  All-append P [] ys h k = k
  All-append P (x ∷ xs) ys h k = (h.0, All-append P xs ys h.1 k)

  pub All-map {κ κ'} :
      (P : A → Type κ) (Q : A → Type κ') (xs : List A) → ((x : A) → P x → Q x) → All P xs → All Q xs
  All-map P Q [] f h = tt
  All-map P Q (x ∷ xs) f (h, hs) = (f x h, All-map P Q xs f hs)

  pub any-append : (p : A → Bool) (xs ys : List A) → any p (xs ++ ys) ≡ (any p xs || any p ys)
  unfolding any
  any-append p [] ys = refl
  any-append p (x ∷ xs) ys = ground (arith, any-append p xs ys)

  pub keep-append : (p : A → Bool) (xs ys : List A) → keep p (xs ++ ys) ≡ keep p xs ++ keep p ys
  unfolding keep
  keep-append p [] ys = refl
  keep-append p (x ∷ xs) ys = ground (arith, keep-append p xs ys)

  pub length-keep-le : (p : A → Bool) (xs : List A) → length (keep p xs) ≤ length xs
  unfolding keep
  length-keep-le p [] = omega arith
  length-keep-le p (x ∷ xs) = ground (arith, length-keep-le p xs)

  unfoldable pub take : ℕ → List A → List A
  take zero xs = []
  take (suc n) [] = []
  take (suc n) (x ∷ xs) = x ∷ take n xs

  take-nil : (n : ℕ) (xs : List A) → length xs ≡ 0 → take n xs ≡ xs
  unfolding take
  take-nil zero [] h = refl
  take-nil (suc n) [] h = refl
  take-nil n (x ∷ xs) h = absurd (omega arith)

  pub take_all : (n : ℕ) (xs : List A) → length xs ≤ n → take n xs ≡ xs
  unfolding take
  take_all n [] h = take-nil n [] refl
  take_all zero (x ∷ xs) h = absurd (omega arith)
  take_all (suc n) (x ∷ xs) h = ap (λ r. x ∷ r) (take_all n xs (omega arith))

  pub length-take-le : (n : ℕ) (xs : List A) → length (take n xs) ≤ n
  unfolding take
  length-take-le zero xs = omega arith
  length-take-le (suc n) [] = omega arith
  length-take-le (suc n) (x ∷ xs) = omega (arith, length-take-le n xs)

  -- Taking less than asked for is taking everything.
  pub length-take_short :
      (n : ℕ) (xs : List A) → length (take n xs) < n → length xs ≡ length (take n xs)
  unfolding take
  length-take_short zero xs h = absurd (omega (arith, h))
  length-take_short (suc n) [] h = refl
  length-take_short (suc n) (x ∷ xs) h = omega (arith, length-take_short n xs (omega arith))

  pub length-take-le_whole : (n : ℕ) (xs : List A) → length (take n xs) ≤ length xs
  unfolding take
  length-take-le_whole zero xs = omega arith
  length-take-le_whole (suc n) [] = omega arith
  length-take-le_whole (suc n) (x ∷ xs) = omega (arith, length-take-le_whole n xs)

  pub take_nothing : (n : ℕ) (xs : List A) → n ≡ 0 → take n xs ≡ []
  unfolding take
  take_nothing zero xs h = refl
  take_nothing (suc n) xs h = absurd (omega (arith, h))

  pub same-take : (n m : ℕ) (xs : List A) → n ≡ m → take n xs ≡ take m xs
  same-take n m xs e = ap (λ k. take k xs) e

  -- Taking from two pieces: the second gives what the first does not.
  pub take-append :
      (n : ℕ) (xs ys : List A) → take n (xs ++ ys) ≡ take n xs ++ take (n - length xs) ys
  unfolding take
  take-append n [] ys =
      same-take n (n - 0) ys (omega arith)
      ∙ ap (λ r. r ++ take (n - 0) ys) (sym (take-nil n [] refl))
  take-append zero (x ∷ xs) ys = same-take zero (zero - suc (length xs)) ys (omega arith)
  take-append (suc n) (x ∷ xs) ys =
      ap (λ r. x ∷ r)
        (take-append n xs ys
          ∙ ap (λ r. take n xs ++ r)
              (same-take (n - length xs) (suc n - suc (length xs)) ys (omega arith)))
