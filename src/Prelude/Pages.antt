-- ===== src/Prelude/Pages.antt =====
-- SELECT … WHERE … ORDER BY key DESC LIMIT n on a table that is a list of rows. Among rows with the
-- same key, of which SQL leaves the order open, the first of the list comes first.
use Prim.Native.Nat.{ℕ, zero, suc, ◌≤◌}
use mathlib.Core.Path.{◌≡◌, refl, sym, ap, subst}
use mathlib.Core.Logic.{◌⊎◌, inl, inr}
use mathlib.Core.Bool.{Bool, true}
use mathlib.Core.List.{List, [], ◌∷◌}
use native.Mathlib.Omega.{arith}
use mv_chat.Prelude.Tests.{if◌then◌else◌, leb, Bool-cases}
use mv_chat.Prelude.Lists.{length, take, length-take_le, All, All-take, All-map}
use mv_chat.Prelude.Tables.{select, any, All-select}

module _ {A : Type 0} where
  abbrev pub In : A → List A → Type 0
  In m [] = ⊥
  In m (n ∷ ns) = (n ≡ m) ⊎ In m ns

  All-In : (P : A → Type 0) (m : A) (ms : List A) → All P ms → In m ms → P m
  All-In P m [] h i = elim i [ ]
  All-In P m (n ∷ ns) h (inl e) = subst P e h.0
  All-In P m (n ∷ ns) h (inr i) = All-In P m ns h.1 i

  select-In : (p : A → Bool) (m : A) (ms : List A) → p m ≡ true → In m ms → In m (select p ms)
  unfolding select
  select-In p m [] e h = elim h [ ]
  select-In p m (n ∷ ms) e (inl here) = rw (subst (λ k. p k ≡ true) (sym here) e) (inl here)
  select-In p m (n ∷ ms) e (inr h) = elim (Bool-cases (p n)) [
    | inl t ↦ rw t (inr (select-In p m ms e h))
    | inr f ↦ rw f (select-In p m ms e h)
  ]

  All-In_self : (ms : List A) → All (λ m. In m ms) ms
  All-In_self [] = tt
  All-In_self (m ∷ ms) = (inl refl, All-map (λ k i. inr i) ms (All-In_self ms))

  -- What EXISTS finds, both ways.
  pub any-In : (p : A → Bool) (ms : List A) → any p ms ≡ true → (m : A) × (In m ms) × (p m ≡ true)
  unfolding any
  any-In p [] h = cc
  any-In p (m ∷ ms) h = elim (Bool-cases (p m)) [
    | inl e ↦ (m, inl refl, e)
    | inr e ↦ let (k, i, q) = any-In p ms (rw e at h) in (k, inr i, q)
  ]

  pub In-any : (p : A → Bool) (m : A) (ms : List A) → In m ms → p m ≡ true → any p ms ≡ true
  unfolding any
  In-any p m [] i e = elim i [ ]
  In-any p m (n ∷ ms) (inl here) e = rw (subst (λ k. p k ≡ true) (sym here) e) refl
  In-any p m (n ∷ ms) (inr i) e = ground (arith, In-any p m ms i e)

  All-selected : (p : A → Bool) (ms : List A) → All (λ m. p m ≡ true) (select p ms)
  unfolding select
  All-selected p [] = tt
  All-selected p (m ∷ ms) = elim (Bool-cases (p m)) [
    | inl t ↦ rw t (t, All-selected p ms)
    | inr f ↦ rw f (All-selected p ms)
  ]

module _ {A : Type 0} (key : A → ℕ) where
  unfoldable pub insert_desc : A → List A → List A
  insert_desc m [] = m ∷ []
  insert_desc m (n ∷ ns) =
      let later = insert_desc m ns in if leb (key n) (key m) then m ∷ n ∷ ns else n ∷ later

  unfoldable pub sort_desc : List A → List A
  sort_desc [] = []
  sort_desc (m ∷ ms) = insert_desc m (sort_desc ms)

  -- The rows that pass the test, highest key first, as many as the limit has room for.
  unfoldable pub page : ℕ → (A → Bool) → List A → List A
  page limit p rows = take limit (sort_desc (select p rows))

  -- Highest key first.
  abbrev pub Descending : List A → Type 0
  Descending [] = Unit
  Descending (m ∷ ms) = All (λ n. key n ≤ key m) ms × Descending ms

  module _ (P : A → Type 0) where
    All-insert_desc : (m : A) (ms : List A) → P m → All P ms → All P (insert_desc m ms)
    unfolding insert_desc
    All-insert_desc m [] p h = (p, tt)
    All-insert_desc m (n ∷ ns) p h = elim (Bool-cases (leb (key n) (key m))) [
      | inl e ↦ rw e (p, h)
      | inr e ↦ rw e (h.0, All-insert_desc m ns p h.1)
    ]

    All-sort_desc : (ms : List A) → All P ms → All P (sort_desc ms)
    unfolding sort_desc
    All-sort_desc [] h = tt
    All-sort_desc (m ∷ ms) h = All-insert_desc m (sort_desc ms) h.0 (All-sort_desc ms h.1)

  insert_desc-Descending : (m : A) (ms : List A) → Descending ms → Descending (insert_desc m ms)
  unfolding insert_desc
  insert_desc-Descending m [] h = (tt, tt)
  insert_desc-Descending m (n ∷ ns) h = elim (Bool-cases (leb (key n) (key m))) [
    | inl e ↦
        rw e
          ((ground arith, All-map {P = λ (k : A). key k ≤ key n} (λ k le. ground arith) ns h.0), h)
    | inr e ↦ rw e (
      All-insert_desc (λ k. key k ≤ key n) m ns (ground arith) h.0,
      insert_desc-Descending m ns h.1,
    )
  ]

  sort_desc-Descending : (ms : List A) → Descending (sort_desc ms)
  unfolding sort_desc
  sort_desc-Descending [] = tt
  sort_desc-Descending (m ∷ ms) = insert_desc-Descending m (sort_desc ms) (sort_desc-Descending ms)

  take-Descending : (n : ℕ) (ms : List A) → Descending ms → Descending (take n ms)
  take-Descending zero ms h = tt
  take-Descending (suc n) [] h = tt
  take-Descending (suc n) (m ∷ ms) h = (All-take _ n ms h.0, take-Descending n ms h.1)

  insert_desc-In : (m : A) (ms : List A) → In m (insert_desc m ms)
  unfolding insert_desc
  insert_desc-In m [] = inl refl
  insert_desc-In m (n ∷ ns) = elim (Bool-cases (leb (key n) (key m))) [
    | inl e ↦ rw e (inl refl)
    | inr e ↦ rw e (inr (insert_desc-In m ns))
  ]

  insert_desc-keeps : (k m : A) (ms : List A) → In k ms → In k (insert_desc m ms)
  unfolding insert_desc
  insert_desc-keeps k m [] h = elim h [ ]
  insert_desc-keeps k m (n ∷ ns) h = elim (Bool-cases (leb (key n) (key m))) [
    | inl e ↦ rw e (inr h)
    | inr e ↦
        rw e (elim h [ inl here ↦ inl here | inr there ↦ inr (insert_desc-keeps k m ns there) ])
  ]

  sort_desc-In : (m : A) (ms : List A) → In m ms → In m (sort_desc ms)
  unfolding sort_desc
  sort_desc-In m [] h = elim h [ ]
  sort_desc-In m (n ∷ ms) (inl e) =
      subst (λ k. In m (insert_desc k (sort_desc ms))) (sym e) (insert_desc-In m (sort_desc ms))
  sort_desc-In m (n ∷ ms) (inr h) = insert_desc-keeps m n (sort_desc ms) (sort_desc-In m ms h)

  -- Cut off means that the page is full of entries that come no later.
  take-In :
      (n : ℕ) (m : A) (ms : List A)
      → Descending ms
      → In m ms
      → In m (take n ms) ⊎ ((length (take n ms) ≡ n) × All (λ k. key m ≤ key k) (take n ms))
  take-In zero m ms d i = inr (refl, tt)
  take-In (suc n) m [] d i = elim i [ ]
  take-In (suc n) m (k ∷ ks) d (inl e) = inl (inl e)
  take-In (suc n) m (k ∷ ks) d (inr i) = elim (take-In n m ks d.1 i) [
    | inl on ↦ inl (inr on)
    | inr (full, below) ↦ inr (ap suc full, (All-In (λ j. key j ≤ key k) m ks d.0 i, below))
  ]

  pub length-page_le :
      (limit : ℕ) (p : A → Bool) (rows : List A) → length (page limit p rows) ≤ limit
  unfolding page
  length-page_le limit p rows = length-take_le limit (sort_desc (select p rows))

  pub page-Descending : (limit : ℕ) (p : A → Bool) (rows : List A) → Descending (page limit p rows)
  unfolding page
  page-Descending limit p rows =
      take-Descending limit (sort_desc (select p rows)) (sort_desc-Descending (select p rows))

  All-page :
      (P : A → Type 0) (limit : ℕ) (p : A → Bool) (rows : List A)
      → All P (select p rows)
      → All P (page limit p rows)
  unfolding page
  All-page P limit p rows h = All-take P limit (sort_desc (select p rows)) (All-sort_desc P _ h)

  pub page_sound :
      (limit : ℕ) (p : A → Bool) (rows : List A) → All (λ m. p m ≡ true) (page limit p rows)
  page_sound limit p rows = All-page _ limit p rows (All-selected p rows)

  pub page-In :
      (limit : ℕ) (p : A → Bool) (rows : List A) → All (λ m. In m rows) (page limit p rows)
  page-In limit p rows = All-page _ limit p rows (All-select _ p rows (All-In_self rows))

  pub page_complete :
      (limit : ℕ) (p : A → Bool) (rows : List A) (m : A)
      → In m rows
      → p m ≡ true
      → In m (page limit p rows)
        ⊎ ((length (page limit p rows) ≡ limit) × All (λ k. key m ≤ key k) (page limit p rows))
  unfolding page
  page_complete limit p rows m i v =
      take-In limit m (sort_desc (select p rows)) (sort_desc-Descending (select p rows))
        (sort_desc-In m (select p rows) (select-In p m rows v i))
