-- ===== src/Irido/Clusters.antt =====
-- The slices of irido/grapheme.go are the clusters of the text.
use mv_chat.Prelude.{
  ◌≢◌, ℕ, suc, zero, ◌+◌, ◌-◌, ◌≡◌, ◌≤◌, ◌<◌, refl, sym, ap, ◌∙◌, inl, inr, List, [], ◌∷◌, ◌++◌,
  some, true, false, Text, arith, ltb, leb, leb→le, is_empty, length, take, drop, length-append,
  drop-append, length-drop, take-append, ℤ, pos, negsuc, Bool-cases,
}
use mathlib.Core.List.{append_assoc, cons-ne-nil}
use mv_chat.Irido.Graphemes.{
  StepString, Graphemes, offsets_from, new_graphemes, cluster_count, offset_at, slice, between,
}

abbrev pub concat : List Text → Text
concat [] = []
concat (c ∷ rest) = c ++ concat rest

-- What runeseg documents: a step takes a cluster, which is not empty, off a text that is not empty.
pub record Splits (step : StepString) : Type 0 where
  pub whole :
      (c : ℕ) (text : Text) (state : ℤ)
      → (step (c ∷ text) state).0 ++ (step (c ∷ text) state).1 ≡ c ∷ text
  pub progress : (c : ℕ) (text : Text) (state : ℤ) → 0 < length (step (c ∷ text) state).0

-- The clusters of a text, as the steps give them one after another, from a state.
abbrev pub IsClusters : StepString → Text → ℤ → List Text → Type 0
IsClusters step text state [] = text ≡ []
IsClusters step text state (c ∷ rest) =
    (text ≢ [])
    × (c ≡ (step text state).0)
    × IsClusters step (step text state).1 (step text state).2 rest

-- Where the clusters begin, and the last one ends, if the first begins at `offset`.
abbrev sums : ℕ → List Text → List ℕ
sums offset [] = offset ∷ []
sums offset (c ∷ rest) = offset ∷ sums (offset + length c) rest

-- The loop ends, and its offsets are those of the clusters of the text.
offsets_from_lem :
    (step : StepString) (fuel offset : ℕ) (text : Text) (state : ℤ)
    → Splits step
    → length text ≤ fuel
    → (clusters : List Text) × (offsets_from step fuel offset text state
        ≡ some (sums offset clusters))
      × (concat clusters ≡ text)
      × IsClusters step text state clusters
unfolding offsets_from
offsets_from_lem step fuel offset [] state s h = ([], refl, refl, refl)
offsets_from_lem step zero offset (c ∷ text) state s h = absurd (omega arith)
offsets_from_lem step (suc fuel) offset (c ∷ text) state s h =
    let p = step (c ∷ text) state in
    let less : length p.1 ≤ fuel = omega (
      arith,
      h,
      ap length (s.whole c text state),
      length-append p.0 p.1,
      s.progress c text state,
    ) in
    let ih = offsets_from_lem step fuel (offset + length p.0) p.1 p.2 s less in
    (
      p.0 ∷ ih.0,
      rw ih.1 refl,
      ap (◌++◌ p.0) ih.2 ∙ s.whole c text state,
      (λ e. absurd (cons-ne-nil c text e), refl, ih.3),
    )

sums_not_empty : (offset : ℕ) (clusters : List Text) → is_empty (sums offset clusters) ≡ false
sums_not_empty offset [] = refl
sums_not_empty offset (c ∷ rest) = refl

length-sums :
    (offset : ℕ) (clusters : List Text) → length (sums offset clusters) ≡ suc (length clusters)
length-sums offset [] = refl
length-sums offset (c ∷ rest) = ap suc (length-sums (offset + length c) rest)

offset_at-sums :
    (offset i : ℕ) (clusters : List Text)
    → i ≤ length clusters
    → offset_at (sums offset clusters) i ≡ offset + length (concat (take i clusters))
offset_at-sums offset zero [] h = omega arith
offset_at-sums offset zero (c ∷ rest) h = omega arith
offset_at-sums offset (suc i) [] h = absurd (omega arith)
offset_at-sums offset (suc i) (c ∷ rest) h = omega (
  arith,
  offset_at-sums (offset + length c) i rest (omega (arith, h)),
  length-append c (concat (take i rest)),
)

concat-split :
    (i : ℕ) (clusters : List Text)
    → concat (take i clusters) ++ concat (drop i clusters) ≡ concat clusters
concat-split zero clusters = refl
concat-split (suc i) [] = refl
concat-split (suc i) (c ∷ rest) =
    append_assoc c (concat (take i rest)) (concat (drop i rest)) ∙ ap (◌++◌ c) (concat-split i rest)

-- The clusters from `a` on, `b` excluded.
abbrev pub range : ℕ → ℕ → List Text → List Text
range a b clusters = take (b - a) (drop a clusters)

take-nil : (n : ℕ) → take {A = Text} n [] ≡ []
take-nil zero = refl
take-nil (suc n) = refl

drop-nil : (n : ℕ) → drop {A = Text} n [] ≡ []
drop-nil zero = refl
drop-nil (suc n) = refl

take_all : (n : ℕ) (xs : List Text) → length xs ≤ n → take n xs ≡ xs
take_all n [] h = take-nil n
take_all zero (x ∷ xs) h = absurd (omega arith)
take_all (suc n) (x ∷ xs) h = ap (◌∷◌ x) (take_all n xs (omega (arith, h)))

range-past :
    (a b : ℕ) (clusters : List Text)
    → length clusters ≤ b
    → range a b clusters ≡ range a (length clusters) clusters
range-past a b clusters h =
    let rest = drop a clusters in
    take_all (b - a) rest (omega (arith, h, length-drop a clusters))
    ∙ sym (take_all (length clusters - a) rest (omega (arith, length-drop a clusters)))

range_backwards : (a b : ℕ) (clusters : List Text) → b ≤ a → range a b clusters ≡ []
range_backwards a b clusters h =
    let e : b - a ≡ 0 = omega (arith, h) in ap (λ n. take n (drop a clusters)) e

concat-range :
    (a b : ℕ) (clusters : List Text)
    → a ≤ b
    → concat (take b clusters) ≡ concat (take a clusters) ++ concat (range a b clusters)
concat-range zero b clusters h = ap (λ n. concat (take n clusters)) (omega arith)
concat-range (suc a) zero clusters h = absurd (omega arith)
concat-range (suc a) (suc b) [] h = sym (ap concat (take-nil (suc b - suc a)))
concat-range (suc a) (suc b) (c ∷ rest) h =
    ap (◌++◌ c) (concat-range a b rest (omega (arith, h)))
    ∙ sym (append_assoc c (concat (take a rest)) (concat (range a b rest)))
    ∙ ap (λ n. (c ++ concat (take a rest)) ++ concat (take n (drop a rest))) (omega arith)

module _ (clusters : List Text) (text : Text) (whole : concat clusters ≡ text) where
  abbrev of_clusters : Graphemes
  of_clusters = record { original = text; offsets = sums 0 clusters }

  between-range :
      (a b : ℕ)
      → a ≤ b
      → b ≤ length clusters
      → between of_clusters a b ≡ concat (range a b clusters)
  between-range a b h k =
      let front = concat (take a clusters) in
      let middle = concat (range a b clusters) in
      let back = concat (drop (b - a) (drop a clusters)) in
      let start : offset_at (sums 0 clusters) a ≡ length front =
        omega (arith, offset_at-sums 0 a clusters (omega (arith, h, k))) in
      let size : offset_at (sums 0 clusters) b - length front ≡ length middle = omega (
        arith,
        offset_at-sums 0 b clusters k,
        ap length (concat-range a b clusters h),
        length-append front middle,
      ) in
      let dropped : drop (length front) text ≡ middle ++ back =
        ap (drop (length front)) (sym whole ∙ sym (concat-split a clusters))
        ∙ drop-append front (concat (drop a clusters))
        ∙ sym (concat-split (b - a) (drop a clusters)) in
      rw (start, size, dropped) (take-append middle back)

  count_of : cluster_count of_clusters ≡ length clusters
  unfolding cluster_count
  count_of = ap (λ n. n - 1) (length-sums 0 clusters) ∙ omega arith

  offsets_of : is_empty (sums 0 clusters) ≡ false
  offsets_of = sums_not_empty 0 clusters

  slice-range : (a b : ℕ) → slice of_clusters (pos a) (pos b) ≡ concat (range a b clusters)
  unfolding slice
  slice-range a b =
      let past_end : ltb (length clusters) b ≡ true
          → range a b clusters ≡ range a (length clusters) clusters =
        λ past. range-past a b clusters (ground arith) in
      rw (count_of, offsets_of)
        (elim (Bool-cases (ltb (length clusters) b)) [
          | inl past ↦ rw past (elim (Bool-cases (leb (length clusters) a)) [
            | inl none_left ↦ rw none_left (
                sym (
                  ap concat (
                    past_end past
                    ∙ range_backwards a (length clusters) clusters (leb→le _ a none_left))))
            | inr more ↦ rw more (
                between-range a (length clusters) (ground arith) (omega arith)
                ∙ sym (ap concat (past_end past)))
          ])
          | inr inside ↦ rw inside (elim (Bool-cases (leb b a)) [
            | inl backwards ↦
                rw backwards (sym (ap concat (range_backwards a b clusters (leb→le b a backwards))))
            | inr more ↦ rw more (between-range a b (ground arith) (ground arith))
          ])
        ])

new_graphemes-of :
    (step : StepString) (c : ℕ) (text : Text) (offsets : List ℕ)
    → offsets_from step (suc (length text)) 0 (c ∷ text) (negsuc 0) ≡ some offsets
    → new_graphemes step (c ∷ text) ≡ some (record { original = c ∷ text; offsets = offsets })
unfolding new_graphemes
new_graphemes-of step c text offsets h = rw h refl

-- Provided that a step takes a cluster off any text that is not empty: NewGraphemes ends, on any
-- text, with the text divided into the clusters that the steps give, each from the rest and the state
-- that the one before left, starting from the state -1; Length counts them; and a slice, whatever its bounds
-- from 0 on, is the clusters from the first bound on, the second excluded, as far as there are any.
pub slice-IsClusters :
    (step : StepString) (str : Text)
    → Splits step
    → (g : Graphemes) × (clusters : List Text) × (new_graphemes step str ≡ some g)
      × (concat clusters ≡ str)
      × IsClusters step str (negsuc 0) clusters
      × (cluster_count g ≡ length clusters)
      × ((a b : ℕ) → slice g (pos a) (pos b) ≡ concat (range a b clusters))
unfolding new_graphemes cluster_count slice
slice-IsClusters step [] s = (
  record { original = []; offsets = [] },
  [],
  refl,
  refl,
  refl,
  refl,
  λ a b. sym (ap concat (ap (take (b - a)) (drop-nil a) ∙ take-nil (b - a))),
)
slice-IsClusters step (c ∷ text) s =
    let l = offsets_from_lem step (suc (length text)) 0 (c ∷ text) (negsuc 0) s (omega arith) in
    (
      of_clusters l.0 (c ∷ text) l.2,
      l.0,
      new_graphemes-of step c text (sums 0 l.0) l.1,
      l.2,
      l.3,
      count_of l.0 (c ∷ text) l.2,
      slice-range l.0 (c ∷ text) l.2,
    )
