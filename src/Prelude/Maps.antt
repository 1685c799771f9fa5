-- ===== src/Prelude/Maps.antt =====
-- A Go map from strings to slices as a list of entries: an absent key reads the empty slice.
use Prim.Native.Nat.{ℕ}
use mathlib.Core.Path.{◌≡◌, refl, sym, subst}
use mathlib.Core.Logic.{inl, inr}
use mathlib.Core.Bool.{true, false}
use mathlib.Core.List.{List, [], ◌∷◌}
use native.Mathlib.Omega.{arith}
use mv_chat.Prelude.Tests.{Text, text_eq, if◌then◌else◌, Bool-cases}

abbrev pub Slices : Type 0
Slices = List (Text × List ℕ)

-- m[key]
unfoldable pub entry : Text → Slices → List ℕ
entry e [] = []
entry e ((f, us) ∷ rs) = if text_eq f e then us else entry e rs

-- delete(m, key)
unfoldable pub erase : Text → Slices → Slices
erase e [] = []
erase e ((f, us) ∷ rs) = if text_eq f e then erase e rs else (f, us) ∷ erase e rs

-- m[key] = us
unfoldable pub assign : Text → List ℕ → Slices → Slices
assign e us rs = (e, us) ∷ erase e rs

pub text_eq_refl : (t : Text) → text_eq t t ≡ true
text_eq_refl [] = refl
text_eq_refl (x ∷ xs) = ground (arith, text_eq_refl xs)

pub text_eq_sound : (s t : Text) → text_eq s t ≡ true → s ≡ t
text_eq_sound [] [] h = refl
text_eq_sound [] (y ∷ ys) h = cc
text_eq_sound (x ∷ xs) [] h = cc
text_eq_sound (x ∷ xs) (y ∷ ys) h = ground (arith, text_eq_sound xs ys)

pub entry-erase : (e : Text) (rs : Slices) → entry e (erase e rs) ≡ []
unfolding entry erase
entry-erase e [] = refl
entry-erase e ((g, us) ∷ rs) = ground (arith, entry-erase e rs)

pub entry-erase_other :
    (f e : Text) (rs : Slices) → text_eq e f ≡ false → entry f (erase e rs) ≡ entry f rs
unfolding entry erase
entry-erase_other f e [] h = refl
entry-erase_other f e ((g, us) ∷ rs) h = elim (Bool-cases (text_eq g e)) [
  | inl t ↦
      rw (subst (λ k. text_eq k f ≡ false) (sym (text_eq_sound g e t)) h)
        (rw t (entry-erase_other f e rs h))
  | inr t ↦ ground (arith, entry-erase_other f e rs h)
]

module _ (e f : Text) (us : List ℕ) (rs : Slices) where
  pub entry-assign : entry e (assign e us rs) ≡ us
  unfolding assign entry
  entry-assign = rw (text_eq_refl e) refl

  pub entry-assign_other : text_eq e f ≡ false → entry f (assign e us rs) ≡ entry f rs
  unfolding assign entry
  entry-assign_other h = rw h (entry-erase_other f e rs h)
