-- ===== src/Tests/Texts.antt =====
-- Texts cut and chunked (app/infrastructure/text/).
use aiagent_x.Common.{
  ℕ, suc, ◌*◌, ◌≡◌, ◌≤◌, ◌<◌, ◌⊎◌, refl, arith, true, none, some, List, [], ◌∷◌, length, take, map,
  All,
}
use aiagent_x.Common.Int.{pos}
use aiagent_x.TextTools.Truncate.{truncate, size, limit_of, truncate_longest}
use aiagent_x.TextTools.Tokens.{chunk_with_tokenizer, chunk_with_tokenizer_pieces, concat}
use aiagent_x.TextTools.Chunks.{chunks_of, Covers}
use aiagent_x.TextTools.Chunker.{TextChunker, chunk_text, chunk_text-Covers}

-- "aé€", of one, two and three bytes.
abbrev text : List ℕ
text = 97 ∷ 233 ∷ 8364 ∷ []

truncate_longest_example :
    (n : ℕ) × (truncate text (some 4) ≡ some (take n text))
    × (size (take n text) ≤ limit_of (some 4))
    × ((3 ≤ n) ⊎ (take 3 text ≡ take n text) ⊎ (limit_of (some 4) < size (take 3 text)))
truncate_longest_example = truncate_longest text (some 4) 3

chunk_with_tokenizer_pieces_example :
    (pieces : List (List ℕ)) × (chunk_with_tokenizer (λ p. p) 2 0 text (suc (length text))
      ≡ some (map (λ p. p) pieces))
    × (concat pieces ≡ text)
    × All (λ p. length p ≤ 2) pieces
chunk_with_tokenizer_pieces_example = chunk_with_tokenizer_pieces (λ p. p) 2 text (omega arith)

abbrev chunker : TextChunker ℕ
chunker = record { chunk_size = 100; overlap_of = λ n. 40; tokenizer = none }

chunk_text-Covers_example :
    (spans : List (ℕ × ℕ)) × (chunk_text (suc (length text)) chunker text
      ≡ some (chunks_of text spans))
    × Covers (100 * 4) text 0 spans
unfolding aiagent_x.TextTools.Chunker.new_chunker
chunk_text-Covers_example =
    chunk_text-Covers (pos 100) true (λ n. 40) chunker text refl (omega arith)
