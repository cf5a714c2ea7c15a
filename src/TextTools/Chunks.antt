-- ===== src/TextTools/Chunks.antt =====
-- `TextChunker._chunk_fallback` (app/infrastructure/text/chunker.py), for a text of code points.
-- `char_size` is `self._chunk_size * 4`, and `overlap_size` is `int(char_size * self._overlap)`.
use mathlib.Core.List.{append-nil, append_assoc}
use aiagent_x.Common.{
  ℕ, zero, suc, ◌+◌, ◌-◌, ◌/◌, ◌≤◌, ◌<◌, ◌≡◌, ◌⊎◌, inl, inr, Bool, false, Option, none, some, List,
  [], ◌∷◌, ◌++◌, arith, ltb, leb, ◌==◌, ◌&&◌, ◌||◌, if◌then◌else◌, length, take, drop, min,
  Bool-cases, Option-cases,
}
use aiagent_x.Common.Text.{is_space}

-- `str.strip`.
unfoldable pub strip_left : List ℕ → List ℕ
strip_left [] = []
strip_left (c ∷ text) = if is_space c then strip_left text else c ∷ text

abbrev pub cons_right : ℕ → List ℕ → List ℕ
cons_right c [] = if is_space c then [] else c ∷ []
cons_right c (d ∷ text) = c ∷ d ∷ text

unfoldable pub strip_right : List ℕ → List ℕ
strip_right [] = []
strip_right (c ∷ text) = cons_right c (strip_right text)

unfoldable pub strip : List ℕ → List ℕ
unfolding strip_left strip_right
strip text = strip_right (strip_left text)

-- A text that begins with ". ".
abbrev pub is_stop : List ℕ → Bool
is_stop [] = false
is_stop (c ∷ []) = false
is_stop (c ∷ d ∷ text) = c == b'.' && d == 32

-- `text.rfind(". ", start, end)` among the first `count` positions from `start`.
unfoldable pub find_down : List ℕ → (start count : ℕ) → Option ℕ
find_down text start zero = none
find_down text start (suc count) =
    if is_stop (drop (start + count) text) then some (start + count) else find_down text start count

unfoldable pub rfind_stop : List ℕ → (start end : ℕ) → Option ℕ
unfolding find_down
rfind_stop text start end = find_down text start (end - start - 1)

unfoldable pub slice : List ℕ → (start end : ℕ) → List ℕ
slice text start end = take (end - start) (drop start text)

abbrev pub after_stop : (least end : ℕ) → Option ℕ → ℕ
after_stop least end none = end
after_stop least end (some i) = if ltb least i then i + 2 else end

abbrev pub keep_chunk : List ℕ → List (List ℕ)
keep_chunk [] = []
keep_chunk (c ∷ text) = (c ∷ text) ∷ []

-- What the slices between some ends leave of the text, each chunk stripped and the empty ones left
-- out.
unfoldable pub chunks_of : List ℕ → List (ℕ × ℕ) → List (List ℕ)
chunks_of text [] = []
chunks_of text ((start, end) ∷ spans) =
    keep_chunk (strip (slice text start end)) ++ chunks_of text spans

-- The spans go on from `from` to the end of the text with no gap, each at most a chunk long.
abbrev pub Covers : (char_size : ℕ) → List ℕ → (from : ℕ) → List (ℕ × ℕ) → Type 0
Covers char_size text from [] = length text ≤ from
Covers char_size text from ((start, end) ∷ spans) =
    (start ≤ from)
    × (start < end)
    × (end ≤ start + char_size)
    × (end ≤ length text)
    × Covers char_size text end spans

module _ (char_size overlap_size : ℕ) (text : List ℕ) where
  unfoldable pub end_of : ℕ → ℕ
  unfolding rfind_stop
  end_of start =
      let end = min (start + char_size) (length text) in
      if ltb end (length text)
      then after_stop (start + char_size / 2) end (rfind_stop text start end)
      else end

  -- The loop; `none` if the fuel runs out.
  unfoldable pub fallback_loop : ℕ → (start : ℕ) → (chunks : List (List ℕ)) → Option (List (List ℕ))
  unfolding end_of strip slice
  fallback_loop zero start chunks = none
  fallback_loop (suc fuel) start chunks =
      let end = end_of start in
      let chunks' = chunks ++ keep_chunk (strip (slice text start end)) in
      let rest = fallback_loop fuel (end - overlap_size) chunks' in
      if ltb start (length text)
      then (if leb end (start + overlap_size) || leb (length text + overlap_size) end
          then some chunks'
          else rest)
      else some chunks

  unfoldable pub chunk_fallback : ℕ → Option (List (List ℕ))
  unfolding fallback_loop
  chunk_fallback fuel = fallback_loop fuel 0 []

  -- Whatever the overlap, each round starts later, so that the loop ends.
  fallback_loop_ends :
      (fuel start : ℕ) (chunks : List (List ℕ))
      → start ≤ length text
      → length text < start + fuel
      → (result : List (List ℕ)) × (fallback_loop fuel start chunks ≡ some result)
  unfolding fallback_loop
  fallback_loop_ends zero start chunks l h = absurd (omega arith)
  fallback_loop_ends (suc fuel) start chunks l h =
      let end = end_of start in
      let chunks' = chunks ++ keep_chunk (strip (slice text start end)) in
      elim (Bool-cases (ltb start (length text))) [
        | inr done ↦ (chunks, ground arith)
        | inl more ↦
            elim (Bool-cases
              (leb end (start + overlap_size) || leb (length text + overlap_size) end)) [
                | inl stop ↦ (chunks', ground arith)
                | inr on ↦
                    let (result, run) =
                      fallback_loop_ends fuel (end - overlap_size) chunks' (ground arith)
                        (ground arith) in
                    (result, ground arith)
              ]
      ]

  find_down_bounds :
      (start count i : ℕ) → find_down text start count ≡ some i → (start ≤ i) × (i < start + count)
  unfolding find_down
  find_down_bounds start zero i h = ground arith
  find_down_bounds start (suc count) i h = ground (arith, find_down_bounds start count i)

  -- The end of a chunk: behind its start, by more than half a chunk if the text goes on behind it.
  end_of_bounds :
      (start : ℕ)
      → 1 < char_size
      → start < length text
      → (start < end_of start)
        × (end_of start ≤ start + char_size)
        × (end_of start ≤ length text)
        × ((end_of start ≡ length text)
            ⊎ (start + char_size / 2 + 2 < end_of start)
            ⊎ (end_of start ≡ start + char_size))
  unfolding end_of rfind_stop
  end_of_bounds start c h =
      let end = min (start + char_size) (length text) in
      elim (Option-cases (rfind_stop text start end)) [
        | inl nothing ↦ ground arith
        | inr (i, found) ↦ ground (arith, find_down_bounds start (end - start - 1) i)
      ]

  pub fallback_loop-Covers :
      (fuel start from : ℕ) (chunks : List (List ℕ))
      → 1 < char_size
      → overlap_size ≤ char_size / 2
      → start ≤ from
      → start < length text
      → length text < start + fuel
      → (spans : List (ℕ × ℕ)) × (fallback_loop fuel start chunks
          ≡ some (chunks ++ chunks_of text spans))
        × Covers char_size text from spans
  unfolding fallback_loop chunks_of
  fallback_loop-Covers zero start from chunks c o f l h = absurd (omega arith)
  fallback_loop-Covers (suc fuel) start from chunks c o f l h =
      let end = end_of start in
      let chunk = keep_chunk (strip (slice text start end)) in
      let bounds = end_of_bounds start c l in
      elim (Bool-cases (leb end (start + overlap_size) || leb (length text + overlap_size) end)) [
        | inl stop ↦ (
          (start, end) ∷ [],
          ground (arith, append-nil chunk),
          (f, bounds.0, bounds.1, bounds.2, ground arith),
        )
        | inr on ↦
            let (spans, run, covered) =
              fallback_loop-Covers fuel (end - overlap_size) end (chunks ++ chunk) c o (omega arith)
                (ground arith) (ground arith) in
            (
              (start, end) ∷ spans,
              ground (arith, append_assoc chunks chunk (chunks_of text spans)),
              (f, bounds.0, bounds.1, bounds.2, covered),
            )
      ]
