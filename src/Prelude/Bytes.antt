-- ===== src/Prelude/Bytes.antt =====
-- Byte sequences: Go's slices of `[]byte` and `string`, and the functions of its package strings.
use Prim.Native.Char.{code}
use Prim.Native.String.{String}
use Prim.Native.Nat.{ℕ, zero, suc, ◌+◌, ◌-◌, ◌≤◌}
use mathlib.Core.Path.{◌≡◌, refl, ap, subst}
use mathlib.Core.Bool.{Bool, true, false, ◌&&◌}
use mathlib.Core.Option.{Option, none, some}
use mathlib.Core.List.{List, [], ◌∷◌, ◌++◌}
use native.Mathlib.Nat.{zero-add, suc-add}
use native.Mathlib.Omega.{arith}
use mv_chat.Prelude.Tests.{Text, ◌==◌, if◌then◌else◌, Bool-cases, Option-cases}
use mathlib.Core.Logic.{inl, inr}
use mv_chat.Prelude.Lists.{length, take}

-- The bytes of an ASCII literal.
abbrev pub codes : String → Text
codes String.[] = []
codes (String.◌∷◌ c s) = code c ∷ codes s

module _ {ℓ} {A : Type ℓ} where
  abbrev pub drop : ℕ → List A → List A
  drop zero xs = xs
  drop (suc n) [] = []
  drop (suc n) (x ∷ xs) = drop n xs

  pub take-append : (xs ys : List A) → take (length xs) (xs ++ ys) ≡ xs
  take-append [] ys = refl
  take-append (x ∷ xs) ys = ap (◌∷◌ x) (take-append xs ys)

  pub drop-append : (xs ys : List A) → drop (length xs) (xs ++ ys) ≡ ys
  drop-append [] ys = refl
  drop-append (x ∷ xs) ys = drop-append xs ys

  pub take-append_of : (n : ℕ) (xs ys : List A) → length xs ≡ n → take n (xs ++ ys) ≡ xs
  take-append_of n xs ys h = subst (λ k. take k (xs ++ ys) ≡ xs) h (take-append xs ys)

  pub drop-append_of : (n : ℕ) (xs ys : List A) → length xs ≡ n → drop n (xs ++ ys) ≡ ys
  drop-append_of n xs ys h = subst (λ k. drop k (xs ++ ys) ≡ ys) h (drop-append xs ys)

  drop-append_add : (m : ℕ) (xs ys : List A) → drop (length xs + m) (xs ++ ys) ≡ drop m ys
  drop-append_add m [] ys = rw zero-add refl
  drop-append_add m (x ∷ xs) ys = rw suc-add (drop-append_add m xs ys)

  pub drop-append_more :
      (n m : ℕ) (xs ys : List A) → length xs + m ≡ n → drop n (xs ++ ys) ≡ drop m ys
  drop-append_more n m xs ys h =
      subst (λ k. drop k (xs ++ ys) ≡ drop m ys) h (drop-append_add m xs ys)

  pub take-append-drop : (n : ℕ) (xs : List A) → take n xs ++ drop n xs ≡ xs
  take-append-drop zero xs = refl
  take-append-drop (suc n) [] = refl
  take-append-drop (suc n) (x ∷ xs) = ap (◌∷◌ x) (take-append-drop n xs)

  pub drop-add : (n m : ℕ) (xs : List A) → drop (n + m) xs ≡ drop m (drop n xs)
  drop-add zero m xs = rw zero-add refl
  drop-add (suc n) zero [] = rw suc-add refl
  drop-add (suc n) (suc m) [] = rw suc-add refl
  drop-add (suc n) m (x ∷ xs) = rw suc-add (drop-add n m xs)

  pub length-drop : (n : ℕ) (xs : List A) → length (drop n xs) ≡ length xs - n
  length-drop zero xs = omega arith
  length-drop (suc n) [] = omega arith
  length-drop (suc n) (x ∷ xs) = omega (arith, length-drop n xs)

  pub length-take : (n : ℕ) (xs : List A) → n ≤ length xs → length (take n xs) ≡ n
  length-take zero xs h = refl
  length-take (suc n) [] h = absurd (omega arith)
  length-take (suc n) (x ∷ xs) h = omega (arith, length-take n xs (omega arith))

-- strings.HasPrefix
abbrev pub has_prefix : Text → Text → Bool
has_prefix xs [] = true
has_prefix [] (y ∷ ys) = false
has_prefix (x ∷ xs) (y ∷ ys) = x == y && has_prefix xs ys

-- strings.SplitN(t, sep, 2) where `sep` is not empty: `none` if it does not occur.
unfoldable pub split_in_two : Text → Text → Option (Text × Text)
split_in_two sep [] = none
split_in_two sep (x ∷ xs) =
    if has_prefix (x ∷ xs) sep
    then some ([], drop (length sep) (x ∷ xs))
    else elim (split_in_two sep xs) [ none ↦ none | some (a, b) ↦ some (x ∷ a, b) ]

-- What stands before the first `c`: `t[:strings.Index(t, c)]`, or `t` without one.
unfoldable pub before_byte : ℕ → Text → Text
before_byte c [] = []
before_byte c (x ∷ xs) = if x == c then [] else x ∷ before_byte c xs

-- strings.Contains(t, c) for one byte.
unfoldable pub contains_byte : ℕ → Text → Bool
contains_byte c [] = false
contains_byte c (x ∷ xs) = if x == c then true else contains_byte c xs

pub has_prefix_sound : (xs ys : Text) → has_prefix xs ys ≡ true → xs ≡ ys ++ drop (length ys) xs
has_prefix_sound xs [] h = refl
has_prefix_sound [] (y ∷ ys) h = cc
has_prefix_sound (x ∷ xs) (y ∷ ys) h = ground (arith, has_prefix_sound xs ys)

pub has_prefix-append : (xs ys : Text) → has_prefix (xs ++ ys) xs ≡ true
has_prefix-append [] ys = refl
has_prefix-append (x ∷ xs) ys = ground (arith, has_prefix-append xs ys)

pub split_in_two_sound : (sep t a b : Text) → split_in_two sep t ≡ some (a, b) → t ≡ a ++ (sep ++ b)
unfolding split_in_two
split_in_two_sound sep [] a b h = cc
split_in_two_sound sep (x ∷ xs) a b h = elim (Bool-cases (has_prefix (x ∷ xs) sep)) [
  | inl here ↦ ground (arith, has_prefix_sound (x ∷ xs) sep)
  | inr there ↦ elim (Option-cases (split_in_two sep xs)) [
    | inl gone ↦ absurd (ground arith)
    | inr ((a', b'), found) ↦ let rest = split_in_two_sound sep xs a' b' found in ground arith
  ]
]
