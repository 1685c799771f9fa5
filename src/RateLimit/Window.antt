-- ===== src/RateLimit/Window.antt =====
-- Counting within a window (ratelimit/ratelimit.go), and what the limiter knows of its history.
use mv_chat.Prelude.{
  ℕ, ◌+◌, ◌≤◌, ◌≡◌, refl, ap, subst, ◌∙◌, inl, inr, List, [], ◌∷◌, ◌++◌, Bool, true, false, Text,
  arith, ltb, ℤ, pos, negsuc, text_eq, text_eq_sound, Slices, entry, erase, assign, entry-erase,
  entry-erase_other, is_empty, if◌then◌else◌, Bool-cases, length, select,
}
use mv_chat.RateLimit.{Limiter, is_recent, cleanup, cleaned}

-- How many of the times lie in the window that ends at `t`.
abbrev pub count_recent : ℕ → ℕ → List ℕ → ℕ
count_recent window t times = length (select (is_recent window t) times)

-- A later window has no more of them.
pub count_recent-later :
    (window now t : ℕ) (times : List ℕ)
    → now ≤ t
    → count_recent window t times ≤ count_recent window now times
unfolding select
count_recent-later window now t [] le = omega arith
count_recent-later window now t (x ∷ xs) le = ground (arith, count_recent-later window now t xs le)

-- What an earlier window has dropped is in no later one.
pub count_recent-select :
    (window now t : ℕ) (times : List ℕ)
    → now ≤ t
    → count_recent window t (select (is_recent window now) times) ≡ count_recent window t times
unfolding select
count_recent-select window now t [] le = refl
count_recent-select window now t (x ∷ xs) le =
    ground (arith, count_recent-select window now t xs le)

pub count_recent-snoc :
    (window t x : ℕ) (times : List ℕ)
    → count_recent window t (times ++ x ∷ [])
      ≡ count_recent window t times + count_recent window t (x ∷ [])
unfolding select
count_recent-snoc window t x [] = ground arith
count_recent-snoc window t x (y ∷ ys) = ground (arith, count_recent-snoc window t x ys)

-- A map has one entry for a key.
abbrev pub OneEntry : Slices → Type 0
OneEntry [] = Unit
OneEntry ((k, times) ∷ m) = (entry k m ≡ []) × OneEntry m

OneEntry-erase : (e : Text) (m : Slices) → OneEntry m → OneEntry (erase e m)
unfolding erase
OneEntry-erase e [] h = tt
OneEntry-erase e ((k, times) ∷ m) h = elim (Bool-cases (text_eq k e)) [
  | inl t ↦ rw t (OneEntry-erase e m h.1)
  | inr t ↦ rw t (absent, OneEntry-erase e m h.1)
]
  where
    absent : entry k (erase e m) ≡ []
    absent = elim (Bool-cases (text_eq e k)) [
      | inl t ↦ subst (λ x. entry x (erase e m) ≡ []) (text_eq_sound e k t) (entry-erase e m)
      | inr t ↦ entry-erase_other k e m t ∙ h.0
    ]

pub OneEntry-assign :
    (e : Text) (times : List ℕ) (m : Slices) → OneEntry m → OneEntry (assign e times m)
unfolding assign
OneEntry-assign e times m h = (entry-erase e m, OneEntry-erase e m h)

module _ (key k : Text) (m : Slices) where
  entry-kept :
      (valid : List ℕ)
      → text_eq k key ≡ true
      → entry key m ≡ []
      → entry key (if is_empty valid then m else (k, valid) ∷ m) ≡ valid
  unfolding entry
  entry-kept [] t h = h
  entry-kept (x ∷ xs) t h = rw t refl

  entry-passed :
      (valid : List ℕ)
      → text_eq k key ≡ false
      → entry key (if is_empty valid then m else (k, valid) ∷ m) ≡ entry key m
  unfolding entry
  entry-passed [] t = refl
  entry-passed (x ∷ xs) t = rw t refl

module _ (window now : ℕ) where
  entry-cleanup :
      (key : Text) (m : Slices)
      → OneEntry m
      → entry key (cleanup window now m) ≡ select (is_recent window now) (entry key m)
  unfolding cleanup entry select
  entry-cleanup key [] h = refl
  entry-cleanup key ((k, times) ∷ m) h =
      let rest = entry-cleanup key m h.1 in
      elim (Bool-cases (text_eq k key)) [
        | inl t ↦
            let gone : entry key m ≡ [] = subst (λ x. entry x m ≡ []) (text_eq_sound k key t) h.0 in
            entry-kept key k (cleanup window now m) (select (is_recent window now) times) t
              (rest ∙ rw gone refl)
            ∙ rw t refl
        | inr t ↦
            entry-passed key k (cleanup window now m) (select (is_recent window now) times) t
            ∙ rest
            ∙ rw t refl
      ]

  OneEntry-kept :
      (k : Text) (valid : List ℕ) (m : Slices)
      → entry k m ≡ []
      → OneEntry m
      → OneEntry (if is_empty valid then m else (k, valid) ∷ m)
  OneEntry-kept k [] m e h = h
  OneEntry-kept k (x ∷ xs) m e h = (e, h)

  OneEntry-cleanup : (m : Slices) → OneEntry m → OneEntry (cleanup window now m)
  unfolding cleanup select
  OneEntry-cleanup [] h = tt
  OneEntry-cleanup ((k, times) ∷ m) h =
      OneEntry-kept k (select (is_recent window now) times) (cleanup window now m)
        (entry-cleanup k m h.1 ∙ rw h.0 refl) (OneEntry-cleanup m h.1)

-- The requests that were allowed, newest first.
abbrev pub granted : Text → List (Text × ℕ) → List ℕ
granted key [] = []
granted key ((k, t) ∷ log) = if text_eq k key then t ∷ granted key log else granted key log

-- The largest number below which `reaches` does not answer.
abbrev pub cap : ℤ → ℕ
cap (pos limit) = limit
cap (negsuc limit) = 0

-- From `last` on, the limiter counts exactly what it has allowed, and never more than its limit.
pub record Tracks (last : ℕ) (log : List (Text × ℕ)) (l : Limiter) : Type 0 where
  pub one : OneEntry l.requests
  pub counted :
      (key : Text) (t : ℕ)
      → last ≤ t
      → count_recent l.window t (entry key l.requests) ≡ count_recent l.window t (granted key log)
  pub within :
      (key : Text) (t : ℕ) → last ≤ t → count_recent l.window t (granted key log) ≤ cap l.limit

pub cleaned-Tracks :
    (last now : ℕ) (log : List (Text × ℕ)) (l : Limiter)
    → last ≤ now
    → Tracks last log l
    → Tracks now log (cleaned now l)
unfolding cleaned
cleaned-Tracks last now log l le v =
    elim (Bool-cases (ltb (l.last_cleanup + l.cleanup_interval) now)) [
      | inl due ↦ rw due (record {
        one = OneEntry-cleanup l.window now l.requests v.one;
        counted = λ key t later.
            ap (count_recent l.window t) (entry-cleanup l.window now key l.requests v.one)
            ∙ count_recent-select l.window now t (entry key l.requests) later
            ∙ v.counted key t (omega (arith, le, later));
        within = λ key t later. v.within key t (omega (arith, le, later));
      })
      | inr not_due ↦ rw not_due (record {
        one = v.one;
        counted = λ key t later. v.counted key t (omega (arith, le, later));
        within = λ key t later. v.within key t (omega (arith, le, later));
      })
    ]

-- The log after a request.
abbrev pub logged : Bool → Text → ℕ → List (Text × ℕ) → List (Text × ℕ)
logged true key now log = (key, now) ∷ log
logged false key now log = log
