-- ===== src/Prelude/Tables.antt =====
-- A database table as the list of its rows: SELECT, UPDATE and EXISTS with a WHERE clause that is a
-- Boolean test.
use mathlib.Core.Path.{◌≡◌, refl, subst}
use mathlib.Core.Option
use mathlib.Core.Logic.{inl, inr}
use mathlib.Core.Bool.{Bool, true, false, ◌||◌}
use mathlib.Core.Option.{Option, none, some, some-injective}
use mathlib.Core.List.{List, [], ◌∷◌}
use native.Mathlib.Omega.{arith}
use mv_chat.Prelude.Tests.{if◌then◌else◌, Bool-cases}
use mv_chat.Prelude.Lists.{All}

module _ {ℓ} {A : Type ℓ} where
  unfoldable pub select : (A → Bool) → List A → List A
  select p [] = []
  select p (x ∷ xs) = if p x then x ∷ select p xs else select p xs

  unfoldable pub find? : (A → Bool) → List A → Option A
  find? p [] = none
  find? p (x ∷ xs) = if p x then some x else find? p xs

  unfoldable pub any : (A → Bool) → List A → Bool
  any p [] = false
  any p (x ∷ xs) = p x || any p xs

  unfoldable pub update_where : (A → Bool) → (A → A) → List A → List A
  update_where p f [] = []
  update_where p f (x ∷ xs) = (if p x then f x else x) ∷ update_where p f xs

  -- The row that a search finds satisfies the test.
  pub find?-sound : (p : A → Bool) (xs : List A) (a : A) → find? p xs ≡ some a → p a ≡ true
  unfolding find?
  find?-sound p [] a h = cc
  find?-sound p (x ∷ xs) a h = ground (arith, find?-sound p xs a)

  -- An update that does not touch what the search tests.
  pub find?-update_where :
      (p q : A → Bool) (f : A → A) (xs : List A)
      → ((x : A) → p (f x) ≡ p x)
      → find? p (update_where q f xs) ≡ Option.map (λ x. if q x then f x else x) (find? p xs)
  unfolding find? update_where
  find?-update_where p q f [] keeps = refl
  find?-update_where p q f (x ∷ xs) keeps = elim (Bool-cases (q x)) [
    | inl hit ↦ elim (Bool-cases (p x)) [
      | inl t ↦ rw (hit, keeps x, t) (rw hit refl)
      | inr t ↦ rw (hit, keeps x, t) (find?-update_where p q f xs keeps)
    ]
    | inr miss ↦ elim (Bool-cases (p x)) [
      | inl t ↦ rw (miss, t) (rw miss refl)
      | inr t ↦ rw (miss, t) (find?-update_where p q f xs keeps)
    ]
  ]

module _ {ℓ κ} {A : Type ℓ} (P : A → Type κ) where
  pub All-select : (p : A → Bool) (xs : List A) → All P xs → All P (select p xs)
  unfolding select
  All-select p [] h = tt
  All-select p (x ∷ xs) h = elim (Bool-cases (p x)) [
    | inl e ↦ rw e (h.0, All-select p xs h.1)
    | inr e ↦ rw e (All-select p xs h.1)
  ]

  pub All-find? : (p : A → Bool) (xs : List A) (a : A) → All P xs → find? p xs ≡ some a → P a
  unfolding find?
  All-find? p [] a h e = cc
  All-find? p (x ∷ xs) a h e = elim (Bool-cases (p x)) [
    | inl q ↦ subst P (some-injective x a (rw q at e)) h.0
    | inr q ↦ All-find? p xs a h.1 (rw q at e)
  ]

  pub All-update_where :
      (Q : A → Type κ) (p : A → Bool) (f : A → A) (xs : List A)
      → ((x : A) → P x → p x ≡ true → Q (f x))
      → ((x : A) → P x → p x ≡ false → Q x)
      → All P xs
      → All Q (update_where p f xs)
  unfolding update_where
  All-update_where Q p f [] hit miss h = tt
  All-update_where Q p f (x ∷ xs) hit miss h = elim (Bool-cases (p x)) [
    | inl q ↦ rw q (hit x h.0 q, All-update_where Q p f xs hit miss h.1)
    | inr q ↦ rw q (miss x h.0 q, All-update_where Q p f xs hit miss h.1)
  ]
