-- ===== src/TextTools/Tokens.antt =====
-- `TextChunker._chunk_with_tokenizer` (app/infrastructure/text/chunker.py). The tokens are those of
-- `tiktoken`, and `decode` is its decoder; `overlap_size` is `int(chunk_size * overlap)`.
use aiagent_x.Common.{
  ℕ, zero, suc, ◌+◌, ◌-◌, ◌≤◌, ◌<◌, ◌≡◌, refl, sym, ap, ◌∙◌, Bool, true, Option, none, some, List,
  [], ◌∷◌, ◌++◌, arith, ltb, if◌then◌else◌, length, take, drop, map, Bool-cases, inl, inr,
  take-append-drop, not, All, length-take,
}
use mathlib.Core.List.{append-nil, append_assoc}
use native.Mathlib.Nat.{zero-add}
use aiagent_x.Common.Int.{ℤ, pos, negsuc, pos_part, neg_part, sub_ℕ, ◌+ℤ◌}

-- i < n, and min(i, n), for a length `n`.
abbrev pub lt_len : ℤ → ℕ → Bool
lt_len i n = ltb (pos_part i) (n + neg_part i)

abbrev pub min_len : ℤ → ℕ → ℤ
min_len i n = if lt_len i n then i else pos n

module _ {Token : Type 0} where
  -- Where an index of a slice points to: a negative one counts from the end.
  abbrev pub position : List Token → ℤ → ℕ
  position tokens (pos i) = i
  position tokens (negsuc i) = length tokens - suc i

  -- `tokens[start:end]`.
  unfoldable pub slice : List Token → (start end : ℤ) → List Token
  slice tokens start end =
      take (position tokens end - position tokens start) (drop (position tokens start) tokens)

  module _ (decode : List Token → List ℕ) (chunk_size overlap_size : ℕ) (tokens : List Token) where
    -- The loop; `none` if the fuel runs out.
    unfoldable pub tokenizer_loop :
        ℕ → (start : ℤ) → (chunks : List (List ℕ)) → Option (List (List ℕ))
    tokenizer_loop zero start chunks = none
    tokenizer_loop (suc fuel) start chunks =
        let end = min_len (start +ℤ pos chunk_size) (length tokens) in
        let chunks' = chunks ++ decode (slice tokens start end) ∷ [] in
        let next = sub_ℕ (pos_part end) (neg_part end + overlap_size) in
        let rest = tokenizer_loop fuel next chunks' in
        if not (lt_len start (length tokens))
        then some chunks
        else if lt_len next (length tokens)
        then rest
        else some chunks'

    unfoldable pub chunk_with_tokenizer : ℕ → Option (List (List ℕ))
    chunk_with_tokenizer fuel = tokenizer_loop fuel (pos 0) []

    tokenizer_loop_diverges :
        (fuel : ℕ) (start : ℤ) (chunks : List (List ℕ))
        → 0 < overlap_size
        → lt_len start (length tokens) ≡ true
        → tokenizer_loop fuel start chunks ≡ none
    unfolding tokenizer_loop
    tokenizer_loop_diverges zero start chunks o h = refl
    tokenizer_loop_diverges (suc fuel) start chunks o h =
        let end = min_len (start +ℤ pos chunk_size) (length tokens) in
        let next = sub_ℕ (pos_part end) (neg_part end + overlap_size) in
        ground (
          arith,
          tokenizer_loop_diverges fuel next (chunks ++ decode (slice tokens start end) ∷ []) o,
        )

    -- With an overlap the loop never ends on a text that has a token, whatever fuel it is given: the
    -- next chunk always starts before the end of the text.
    pub chunk_with_tokenizer_diverges :
        (fuel : ℕ) → 0 < overlap_size → 0 < length tokens → chunk_with_tokenizer fuel ≡ none
    unfolding chunk_with_tokenizer
    chunk_with_tokenizer_diverges fuel o h =
        tokenizer_loop_diverges fuel (pos 0) [] o (ground arith)

abbrev pub concat {ℓ} : {A : Type ℓ} → List (List A) → List A
concat [] = []
concat (x ∷ xs) = x ++ concat xs

drop_nil {ℓ} : {A : Type ℓ} (n : ℕ) → drop {A = A} n [] ≡ []
drop_nil zero = refl
drop_nil (suc n) = refl

drop-drop {ℓ} : {A : Type ℓ} (m n : ℕ) (xs : List A) → drop n (drop m xs) ≡ drop (m + n) xs
drop-drop zero n xs = rw (zero-add)
drop-drop (suc m) n [] = drop_nil n ∙ sym (drop_nil (suc m + n))
drop-drop (suc m) n (x ∷ xs) =
    let e : suc (m + n) ≡ suc m + n = omega arith in drop-drop m n xs ∙ ap (λ k. drop k (x ∷ xs)) e

drop-all {ℓ} : {A : Type ℓ} (n : ℕ) (xs : List A) → length xs ≤ n → drop n xs ≡ []
drop-all zero [] h = refl
drop-all zero (x ∷ xs) h = absurd (omega arith)
drop-all (suc n) [] h = refl
drop-all (suc n) (x ∷ xs) h = drop-all n xs (omega arith)

module _ {Token : Type 0} (decode : List Token → List ℕ) (chunk_size : ℕ)
    (tokens : List Token) where
  piece_at : ℕ → ℕ → List Token
  piece_at s e = take (e - s) (drop s tokens)

  piece_at-drop : (s e : ℕ) → s ≤ e → piece_at s e ++ drop e tokens ≡ drop s tokens
  unfolding piece_at
  piece_at-drop s e h =
      let k : s + (e - s) ≡ e = omega arith in
      let d = drop-drop s (e - s) tokens ∙ ap (λ n. drop n tokens) k in
      rw d at (take-append-drop (e - s) (drop s tokens))

  piece_at_size : (s e : ℕ) → length (piece_at s e) ≤ e - s
  unfolding piece_at
  piece_at_size s e = omega (arith, length-take {0} (e - s) (drop s tokens))

  tokenizer_loop_ends :
      (fuel s : ℕ) (chunks : List (List ℕ))
      → 0 < chunk_size
      → s ≤ length tokens
      → length tokens < s + fuel
      → (pieces : List (List Token)) × (tokenizer_loop decode chunk_size 0 tokens fuel
            (pos s)
            chunks
          ≡ some (chunks ++ map decode pieces))
        × (concat pieces ≡ drop s tokens)
        × All (λ p. length p ≤ chunk_size) pieces
  unfolding tokenizer_loop slice piece_at
  tokenizer_loop_ends zero s chunks c h f = absurd (omega arith)
  tokenizer_loop_ends (suc fuel) s chunks c h f = elim (Bool-cases (ltb s (length tokens))) [
    | inr done ↦ ([], ground (arith, append-nil chunks), sym (drop-all s tokens (ground arith)), tt)
    | inl more ↦ elim (Bool-cases (ltb (s + chunk_size) (length tokens))) [
      | inl inside ↦
          let piece = piece_at s (s + chunk_size) in
          let (pieces, run, cat, small) =
            tokenizer_loop_ends fuel (s + chunk_size) (chunks ++ decode piece ∷ []) c (ground arith)
              (ground arith) in
          (
            piece ∷ pieces,
            ground (arith, append_assoc chunks (decode piece ∷ []) (map decode pieces)),
            ap (λ l. piece ++ l) cat ∙ piece_at-drop s (s + chunk_size) (omega arith),
            (omega (arith, piece_at_size s (s + chunk_size)), small),
          )
      | inr last ↦
          let piece = piece_at s (length tokens) in
          (
            piece ∷ [],
            ground arith,
            ap (λ l. piece ++ l) (sym (drop-all (length tokens) tokens (omega arith)))
                ∙ piece_at-drop s (length tokens) h,
            (ground (arith, piece_at_size s (length tokens)), tt),
          )
    ]
  ]

  -- With no overlap the loop ends within one round more than there are tokens, and its chunks are
  -- what is decoded from pieces of at most the chunk's size, which together are all the tokens.
  pub chunk_with_tokenizer_pieces :
      0 < chunk_size
      → (pieces : List (List Token)) × (chunk_with_tokenizer decode chunk_size 0 tokens
            (suc (length tokens))
          ≡ some (map decode pieces))
        × (concat pieces ≡ tokens)
        × All (λ p. length p ≤ chunk_size) pieces
  unfolding chunk_with_tokenizer
  chunk_with_tokenizer_pieces c =
      tokenizer_loop_ends (suc (length tokens)) 0 [] c (omega arith) (omega arith)
