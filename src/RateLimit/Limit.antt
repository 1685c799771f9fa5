-- ===== src/RateLimit/Limit.antt =====
-- One call of `Allow` (ratelimit/ratelimit.go) and what the limiter knows after it.
use mv_chat.Prelude.{
  ℕ, ◌+◌, ◌≤◌, ◌<◌, ◌≡◌, refl, sym, ap, subst, ◌∙◌, inl, inr, List, [], ◌∷◌, ◌++◌, true, false, not,
  Text, arith, ℤ, pos, negsuc, text_eq, text_eq_refl, text_eq_sound, entry, assign, entry-assign,
  entry-assign_other, Bool-cases, length, select,
}
use mv_chat.RateLimit.{Limiter, is_recent, reaches, cleaned, admit, allow}
use mv_chat.RateLimit.Window.{
  count_recent, count_recent-later, count_recent-select, count_recent-snoc, OneEntry-assign,
  granted, cap, Tracks, cleaned-Tracks, logged,
}

not_reached : (n : ℕ) (limit : ℤ) → reaches n limit ≡ false → n < cap limit
not_reached n (pos limit) h = ground arith
not_reached n (negsuc limit) h = cc

cleaned-config :
    (now : ℕ) (l : Limiter)
    → ((cleaned now l).window ≡ l.window) × ((cleaned now l).limit ≡ l.limit)
unfolding cleaned
cleaned-config now l = ground arith

pub allow-config :
    (now : ℕ) (key : Text) (l : Limiter)
    → ((allow now key l).1.window ≡ l.window) × ((allow now key l).1.limit ≡ l.limit)
unfolding allow admit cleaned
allow-config now key l = ground arith

module _ (now : ℕ) (key : Text) (log : List (Text × ℕ)) (l : Limiter) (v : Tracks now log l) where
  valid : List ℕ
  valid = select (is_recent l.window now) (entry key l.requests)

  -- The number of entries that are kept is that of the requests allowed in the window.
  valid-counted : length valid ≡ count_recent l.window now (granted key log)
  unfolding valid
  valid-counted = v.counted key now (omega arith)

  valid-later :
      (t : ℕ) → now ≤ t → count_recent l.window t valid ≡ count_recent l.window t (granted key log)
  unfolding valid
  valid-later t later =
      count_recent-select l.window now t (entry key l.requests) later ∙ v.counted key t later

  denied-Tracks : Tracks now log (record l { requests = assign key valid l.requests })
  denied-Tracks = record {
    one = OneEntry-assign key valid l.requests v.one;
    counted = λ k t later. elim (Bool-cases (text_eq key k)) [
      | inl same ↦
          subst
            (λ x.
              count_recent l.window t (entry x (assign key valid l.requests))
              ≡ count_recent l.window t (granted x log))
            (text_eq_sound key k same)
            (ap (count_recent l.window t) (entry-assign key key valid l.requests)
              ∙ valid-later t later)
      | inr other ↦
          ap (count_recent l.window t) (entry-assign_other key k valid l.requests other)
          ∙ v.counted k t later
    ];
    within = v.within;
  }

  at_key :
      (P : List ℕ → List ℕ → Type 0) (k : Text) (times : List ℕ)
      → (text_eq key k ≡ true → P times (now ∷ granted key log))
      → P (entry k l.requests) (granted k log)
      → P (entry k (assign key times (assign key valid l.requests))) (granted k ((key, now) ∷ log))
  at_key P k times here elsewhere = elim (Bool-cases (text_eq key k)) [
    | inl same ↦
        subst
          (λ x.
            P (entry x (assign key times (assign key valid l.requests)))
              (granted x ((key, now) ∷ log)))
          (text_eq_sound key k same)
          (rw (entry-assign key key times (assign key valid l.requests), text_eq_refl key)
            (here same))
    | inr other ↦
        rw
          (
            entry-assign_other key k times (assign key valid l.requests) other,
            entry-assign_other key k valid l.requests other,
            other,
          )
          elsewhere
  ]

  count-granted :
      (t : ℕ)
      → count_recent l.window t (now ∷ granted key log)
        ≡ count_recent l.window t (granted key log) + count_recent l.window t (now ∷ [])
  unfolding select
  count-granted t = ground arith

  count-one : (t : ℕ) → count_recent l.window t (now ∷ []) ≤ 1
  unfolding select
  count-one t = ground arith

  allowed-Tracks :
      reaches (length valid) l.limit ≡ false
      → Tracks now
          ((key, now) ∷ log)
          (record l { requests = assign key (valid ++ now ∷ []) (assign key valid l.requests) })
  allowed-Tracks room = record {
    one =
        OneEntry-assign key (valid ++ now ∷ []) (assign key valid l.requests)
          (OneEntry-assign key valid l.requests v.one);
    counted = λ k t later.
        at_key (λ e g. count_recent l.window t e ≡ count_recent l.window t g) k (valid ++ now ∷ [])
          (λ _.
            count_recent-snoc l.window t now valid
            ∙ ap (λ n. n + count_recent l.window t (now ∷ [])) (valid-later t later)
            ∙ sym (count-granted t))
          (v.counted k t later);
    within = λ k t later.
        at_key (λ e g. count_recent l.window t g ≤ cap l.limit) k (valid ++ now ∷ [])
          (λ _. omega (
            arith,
            count-granted t,
            count-one t,
            count_recent-later l.window now t (granted key log) later,
            valid-counted,
            not_reached (length valid) l.limit room,
          ))
          (v.within k t later);
  }

  admit-step :
      ((admit now key l).0 ≡ not (reaches (count_recent l.window now (granted key log)) l.limit))
      × Tracks now (logged (admit now key l).0 key now log) (admit now key l).1
  unfolding admit valid
  admit-step = elim (Bool-cases (reaches (length valid) l.limit)) [
    | inl full ↦ (rw full (sym (ap not (rw valid-counted at full))), rw full denied-Tracks)
    | inr room ↦ (rw room (sym (ap not (rw valid-counted at room))), rw room (allowed-Tracks room))
  ]

pub allow-step :
    (last now : ℕ) (key : Text) (log : List (Text × ℕ)) (l : Limiter)
    → last ≤ now
    → Tracks last log l
    → ((allow now key l).0 ≡ not (reaches (count_recent l.window now (granted key log)) l.limit))
      × Tracks now (logged (allow now key l).0 key now log) (allow now key l).1
unfolding allow
allow-step last now key log l le v =
    let (answer, after) =
      admit-step now key log (cleaned now l) (cleaned-Tracks last now log l le v) in
    (answer ∙ rw ((cleaned-config now l).0, (cleaned-config now l).1) refl, after)
