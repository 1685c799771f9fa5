-- ===== src/Irido/Graphemes.antt =====
-- irido/grapheme.go: a text by its grapheme clusters. runeseg.StepString is not code of this
-- repository: it is the parameter `step`, from a text and a state to the first cluster, the rest of
-- the text and the next state.
use mv_chat.Prelude.{
  ℕ, suc, zero, ◌+◌, ◌-◌, List, [], ◌∷◌, ◌++◌, Option, none, some, Bool, false, Text, ltb, leb,
  is_empty, length, take, drop, if◌then◌else◌, ℤ, pos, negsuc,
}

abbrev pub StepString : Type 0
StepString = Text → ℤ → Text × Text × ℤ

pub record Graphemes : Type 0 where
  pub original : Text
  pub offsets : List ℕ

-- The offsets from `offset` on, the end of the text included, with a bound on the rounds of the
-- loop: `none` if they do not suffice.
unfoldable pub offsets_from : StepString → ℕ → ℕ → Text → ℤ → Option (List ℕ)
offsets_from step fuel offset [] state = some (offset ∷ [])
offsets_from step zero offset (c ∷ text) state = none
offsets_from step (suc fuel) offset (c ∷ text) state =
    let (cluster, remaining, state') = step (c ∷ text) state in
    elim (offsets_from step fuel (offset + length cluster) remaining state') [
      | none ↦ none
      | some offsets ↦ some (offset ∷ offsets)
    ]

-- A text of n bytes has at most n clusters.
unfoldable pub new_graphemes : StepString → Text → Option Graphemes
new_graphemes step str =
    if is_empty str
    then some (record { original = str; offsets = [] })
    else elim (offsets_from step (length str) 0 str (negsuc 0)) [
      | none ↦ none
      | some offsets ↦ some (record { original = str; offsets = offsets })
    ]

-- Graphemes.Length
unfoldable pub cluster_count : Graphemes → ℕ
cluster_count g = length g.offsets - 1

-- `g.offsets[i]` for an index in range.
abbrev pub offset_at : List ℕ → ℕ → ℕ
offset_at [] i = 0
offset_at (o ∷ rest) zero = o
offset_at (o ∷ rest) (suc i) = offset_at rest i

abbrev pub between : Graphemes → ℕ → ℕ → Text
between g start end =
    let byte_start = offset_at g.offsets start in
    take (offset_at g.offsets end - byte_start) (drop byte_start g.original)

-- An index that is negative counts as 0.
abbrev pub clamped : ℤ → ℕ
clamped (pos n) = n
clamped (negsuc n) = 0

-- Graphemes.Slice
unfoldable pub slice : Graphemes → ℤ → ℤ → Text
slice g start end =
    let first = clamped start in
    let last = if ltb (cluster_count g) (clamped end) then cluster_count g else clamped end in
    if is_empty g.offsets then [] else if leb last first then [] else between g first last

-- Graphemes.At
unfoldable pub cluster_at : Graphemes → ℤ → Text
cluster_at g (negsuc n) = []
cluster_at g (pos i) = if leb (cluster_count g) i then [] else between g i (suc i)

-- Graphemes.ByteOffset
unfoldable pub byte_offset : Graphemes → ℤ → ℕ
byte_offset g (negsuc n) = 0
byte_offset g (pos i) = if leb (length g.offsets) i then 0 else offset_at g.offsets i

-- The loop of GraphemeIndex, from the index `i` on.
unfoldable pub index_from : List ℕ → ℕ → ℤ → Option ℕ
index_from [] i byte = none
index_from (o ∷ rest) i (negsuc n) = some (i - 1)
index_from (o ∷ rest) i (pos byte) =
    let later = index_from rest (i + 1) (pos byte) in if ltb byte o then some (i - 1) else later

-- Graphemes.GraphemeIndex
unfoldable pub grapheme_index : Graphemes → ℤ → ℕ
grapheme_index g byte = elim (index_from g.offsets 0 byte) [ none ↦ cluster_count g | some i ↦ i ]

-- `n ≤ m` of Go's ints, where `n` is a number of clusters.
abbrev pub at_most : ℕ → ℤ → Bool
at_most n (pos m) = leb n m
at_most n (negsuc m) = false

unfoldable pub truncate : StepString → Text → ℤ → Text → Option Text
truncate step str max_graphemes suffix = elim (new_graphemes step str) [
  | none ↦ none
  | some g ↦
      if at_most (cluster_count g) max_graphemes
      then some str
      else some (slice g (pos 0) max_graphemes ++ suffix)
]

unfoldable pub grapheme_length : StepString → Text → Option ℕ
grapheme_length step str = elim (new_graphemes step str) [
  | none ↦ none
  | some g ↦ some (cluster_count g)
]
