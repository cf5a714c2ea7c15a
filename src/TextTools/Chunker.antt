-- ===== src/TextTools/Chunker.antt =====
-- `TextChunker` (app/infrastructure/text/chunker.py). The tokenizer of `tiktoken` is a pair of
-- functions, or missing where the package is; `overlap_of n` is `int(n * overlap)`, a float product.
use aiagent_x.Common.{
  ℕ, suc, ◌*◌, ◌/◌, ◌≤◌, ◌<◌, ◌≡◌, Bool, Option, none, some, List, [], ◌∷◌, arith, leb, ◌&&◌, not,
  if◌then◌else◌, length, Result, ok, raise,
}
use aiagent_x.Common.Int.{ℤ, pos_part}
use aiagent_x.TextTools.Tokens.{chunk_with_tokenizer, chunk_with_tokenizer_diverges}
use aiagent_x.TextTools.Chunks.{chunk_fallback, chunks_of, Covers, fallback_loop-Covers}

pub record Tokenizer (Token : Type 0) : Type 0 where
  pub encode : List ℕ → List Token
  pub decode : List Token → List ℕ

pub record TextChunker (Token : Type 0) : Type 0 where
  pub chunk_size : ℕ
  pub overlap_of : ℕ → ℕ
  pub tokenizer : Option (Tokenizer Token)

pub data ChunkerError : Type 0 where
  chunk_size_out_of_range overlap_out_of_range : ChunkerError

-- `__init__`; `overlap_in_range` is the answer of `0.0 <= overlap < 1.0`.
unfoldable pub new_chunker :
    {Token : Type 0}
    → (chunk_size : ℤ) → (overlap_in_range : Bool) → (ℕ → ℕ)
    → Option (Tokenizer Token)
    → Result ChunkerError (TextChunker Token)
new_chunker chunk_size overlap_in_range overlap_of tokenizer =
    if not (leb 100 (pos_part chunk_size) && leb (pos_part chunk_size) 1000)
    then raise chunk_size_out_of_range
    else if not overlap_in_range
    then raise overlap_out_of_range
    else ok (record {
      chunk_size = pos_part chunk_size;
      overlap_of = overlap_of;
      tokenizer = tokenizer;
    })

module _ {Token : Type 0} where
  abbrev pub chunk_by :
      ℕ → TextChunker Token → List ℕ → Option (Tokenizer Token) → Option (List (List ℕ))
  chunk_by fuel c text none =
      chunk_fallback (c.chunk_size * 4) (c.overlap_of (c.chunk_size * 4)) text fuel
  chunk_by fuel c text (some t) =
      chunk_with_tokenizer t.decode c.chunk_size (c.overlap_of c.chunk_size) (t.encode text) fuel

  -- `none` if the fuel runs out.
  unfoldable pub chunk_text : ℕ → TextChunker Token → List ℕ → Option (List (List ℕ))
  chunk_text fuel c [] = some []
  chunk_text fuel c (x ∷ text) = chunk_by fuel c (x ∷ text) c.tokenizer

  unfoldable pub count_tokens : TextChunker Token → List ℕ → ℕ
  count_tokens c text = elim c.tokenizer [
    | none ↦ length text / 4
    | some t ↦ length (t.encode text)
  ]

  -- A chunker with a tokenizer and an overlap of a token or more never ends on a text that has a
  -- token.
  pub chunk_text_diverges :
      (fuel : ℕ) (c : TextChunker Token) (t : Tokenizer Token) (x : ℕ) (text : List ℕ)
      → c.tokenizer ≡ some t
      → 0 < c.overlap_of c.chunk_size
      → 0 < length (t.encode (x ∷ text))
      → chunk_text fuel c (x ∷ text) ≡ none
  unfolding chunk_text
  chunk_text_diverges fuel c t x text e o h = ground (
    arith,
    chunk_with_tokenizer_diverges t.decode c.chunk_size (c.overlap_of c.chunk_size)
        (t.encode (x ∷ text)) fuel,
  )

  -- A chunker that was accepted, has no tokenizer and has an overlap of at most half a chunk ends on
  -- every text, within one round more than the text has code points; its chunks are what is left,
  -- stripped, of spans that cover the text from its beginning to its end with no gap, each at most a
  -- chunk long.
  pub chunk_text-Covers :
      (size : ℤ) (in_range : Bool) (overlap_of : ℕ → ℕ) (c : TextChunker Token) (text : List ℕ)
      → new_chunker size in_range overlap_of none ≡ ok c
      → overlap_of (c.chunk_size * 4) ≤ c.chunk_size * 2
      → (spans : List (ℕ × ℕ)) × (chunk_text (suc (length text)) c text
          ≡ some (chunks_of text spans))
        × Covers (c.chunk_size * 4) text 0 spans
  unfolding chunk_text new_chunker chunk_fallback chunks_of
  chunk_text-Covers size in_range overlap_of c [] made o = ([], ground arith, ground arith)
  chunk_text-Covers size in_range overlap_of c (x ∷ text) made o =
      let (spans, run, covered) =
        fallback_loop-Covers (c.chunk_size * 4) (c.overlap_of (c.chunk_size * 4)) (x ∷ text)
          (suc (length (x ∷ text))) 0 0 [] (ground arith) (ground arith) (omega arith) (omega arith)
          (omega arith) in
      (spans, ground arith, covered)
