-- ===== src/Crypt/Stream/Keystream.antt =====
-- The stream that `crypt` lays over a packet, given byte by byte with no loop over chunks.
use mathlib.Core.Option
use syrup.Base.{
  ℕ, zero, suc, ◌+◌, ◌-◌, ◌/◌, ◌%◌, ◌≤◌, ◌<◌, ◌≡◌, refl, sym, ◌∙◌, ap, ap₂, Option, some, List, [],
  ◌∷◌, ◌++◌, bit_xor, length, take, drop, get_elem?, arith, inl, inr, Bool-cases, get_or, ltb, ◌==◌,
  if◌then◌else◌, length-take, length-drop, get_elem?-append_left, get_elem?-append_right,
  get_elem?-take, get_elem?-drop, get_elem?-eq_none, dec_lt,
}
use native.Mathlib.Numerals.{add-one}
use syrup.Crypt.Aes.{aes_ecb_encrypt}
use syrup.Crypt.Stream.{Iv, spread_iv, chunk_size, xor_chunk, crypt_chunks, crypt}
use syrup.Crypt.Stream.Laws.{length-xor_chunk, round, chunk_size-le, length-crypt_chunks}

-- The block of the stream after `n` encryptions of the spread vector.
unfoldable pub block : ℕ → List ℕ → List ℕ
block zero seed = seed
block (suc n) seed = aes_ecb_encrypt (block n seed)

-- Byte `q` of the stream of one chunk: output feedback, sixteen bytes to a block.
unfoldable pub chunk_key : List ℕ → ℕ → ℕ
unfolding block
chunk_key seed q = get_or (block (q / 16 + 1) seed) (q % 16) 0

-- The place in its chunk of the byte `p` of a packet whose first chunk has `llength` bytes.
unfoldable pub chunk_offset : ℕ → ℕ → ℕ
chunk_offset llength p = if ltb p llength then p else (p - llength) % 0x5b4

-- The byte laid over byte `p` of a packet.
unfoldable pub key_byte : Iv → ℕ → ℕ
unfolding chunk_key chunk_offset
key_byte iv p = chunk_key (spread_iv iv) (chunk_offset 0x5b0 p)

block-add-one : (n : ℕ) (seed : List ℕ) → block (n + 1) seed ≡ aes_ecb_encrypt (block n seed)
unfolding block
block-add-one n seed = rw add-one

-- The block that is in use at offset `k`, after the test on `k`.
next_block :
    (k : ℕ) (seed : List ℕ)
    → (if k % 16 == 0
        then aes_ecb_encrypt (block ((k + 15) / 16) seed)
        else block ((k + 15) / 16) seed)
      ≡ block (k / 16 + 1) seed
next_block k seed = elim (Bool-cases (k % 16 == 0)) [
  | inl e ↦ let same : (k + 15) / 16 ≡ k / 16 = ground arith in rw (e, same, block-add-one)
  | inr e ↦ let same : (k + 15) / 16 ≡ k / 16 + 1 = ground arith in rw (e, same)
]

xor_chunk-key :
    (k : ℕ) (seed buf : List ℕ) (i : ℕ)
    → get_elem? (xor_chunk k (block ((k + 15) / 16) seed) buf) i
      ≡ Option.map (λ b. bit_xor b (chunk_key seed (k + i))) (get_elem? buf i)
unfolding xor_chunk chunk_key
xor_chunk-key k seed [] i = refl
xor_chunk-key k seed (b ∷ buf) zero =
    ap₂ (λ (bs : List ℕ) (q : ℕ). some (bit_xor b (get_or bs (q % 16) 0)))
      (next_block k seed ∙ ap (λ (q : ℕ). block (q / 16 + 1) seed) (omega arith)) (omega arith)
xor_chunk-key k seed (b ∷ buf) (suc i) =
    ap (λ (bs : List ℕ). get_elem? (xor_chunk (k + 1) bs buf) i)
      (next_block k seed ∙ ap (λ (n : ℕ). block n seed) (omega arith))
    ∙ xor_chunk-key (k + 1) seed buf i
    ∙ ap (λ (q : ℕ). Option.map (λ b. bit_xor b (chunk_key seed q)) (get_elem? buf i)) (omega arith)

chunk_key-xor :
    (seed buf : List ℕ) (i : ℕ)
    → get_elem? (xor_chunk 0 seed buf) i
      ≡ Option.map (λ b. bit_xor b (chunk_key seed i)) (get_elem? buf i)
unfolding block
chunk_key-xor seed buf i =
    xor_chunk-key 0 seed buf i
    ∙ ap (λ (q : ℕ). Option.map (λ b. bit_xor b (chunk_key seed q)) (get_elem? buf i)) (omega arith)

module _ (iv : Iv) where
  -- The byte that `crypt_chunks` lays over byte `p`, when the next chunk has `llength` bytes.
  abbrev keyed : ℕ → ℕ → ℕ → ℕ
  keyed llength p b = bit_xor b (chunk_key (spread_iv iv) (chunk_offset llength p))

  in_chunk :
      (fuel llength : ℕ) (buf : List ℕ) (p : ℕ)
      → p < chunk_size (length buf) llength
      → get_elem? (crypt_chunks (suc fuel) llength iv buf) p
        ≡ Option.map (keyed llength p) (get_elem? buf p)
  in_chunk fuel llength buf p h =
      ap (λ (bs : List ℕ). get_elem? bs p) (round fuel llength iv buf (omega (arith, short)))
      ∙ get_elem?-append_left front back p
          (omega (arith, short, length-xor_chunk 0 (spread_iv iv) (take n buf), length-take n buf))
      ∙ chunk_key-xor (spread_iv iv) (take n buf) p
      ∙ ap₂ (λ (q : ℕ) (o : Option ℕ). Option.map (λ b. bit_xor b (chunk_key (spread_iv iv) q)) o)
          (sym place) (get_elem?-take n buf p h)
    where
      n : ℕ
      n = chunk_size (length buf) llength

      front : List ℕ
      front = xor_chunk 0 (spread_iv iv) (take n buf)

      back : List ℕ
      back = crypt_chunks fuel 0x5b4 iv (drop n buf)

      short : n ≤ length buf
      short = chunk_size-le (length buf) llength

      place : chunk_offset llength p ≡ p
      place = unfold chunk_offset chunk_size in ground (arith, h)

  past_chunk :
      (fuel llength : ℕ) (buf : List ℕ) (p : ℕ)
      → llength ≤ p
      → p < length buf
      → get_elem? (crypt_chunks (suc fuel) llength iv buf) p
        ≡ get_elem? (crypt_chunks fuel 0x5b4 iv (drop llength buf)) (p - llength)
  past_chunk fuel llength buf p h hp =
      ap (λ (bs : List ℕ). get_elem? bs p) (round fuel llength iv buf (omega arith))
      ∙ ap
          (λ (m : ℕ).
            get_elem?
              (xor_chunk 0 (spread_iv iv) (take m buf) ++ crypt_chunks fuel 0x5b4 iv (drop m buf))
              p)
          size
      ∙ get_elem?-append_right front back p (omega (arith, same))
      ∙ ap (get_elem? back) (omega (arith, same))
    where
      front : List ℕ
      front = xor_chunk 0 (spread_iv iv) (take llength buf)

      back : List ℕ
      back = crypt_chunks fuel 0x5b4 iv (drop llength buf)

      size : chunk_size (length buf) llength ≡ llength
      size = unfold chunk_size in ground arith

      same : length front ≡ llength
      same =
          omega
            (arith, length-xor_chunk 0 (spread_iv iv) (take llength buf), length-take llength buf)

  crypt_chunks-key :
      (fuel llength : ℕ) (buf : List ℕ) (p : ℕ)
      → 0 < llength
      → length buf ≤ fuel
      → get_elem? (crypt_chunks fuel llength iv buf) p
        ≡ Option.map (keyed llength p) (get_elem? buf p)
  crypt_chunks-key zero llength [] p pos fits = unfold crypt_chunks in refl
  crypt_chunks-key zero llength (b ∷ buf) p pos fits = absurd (omega arith)
  crypt_chunks-key (suc fuel) llength buf p pos fits = elim (dec_lt p (length buf)) [
    | no out ↦
        get_elem?-eq_none _ p (omega (arith, length-crypt_chunks (suc fuel) llength iv buf))
        ∙ ap (Option.map (keyed llength p)) (sym (get_elem?-eq_none buf p (omega arith)))
    | yes inside ↦ elim (dec_lt p llength) [
      | yes near ↦ in_chunk fuel llength buf p (unfold chunk_size in ground arith)
      | no far ↦
          past_chunk fuel llength buf p (omega arith) inside
          ∙ crypt_chunks-key fuel 0x5b4 (drop llength buf) (p - llength) (omega arith)
              (omega (arith, length-drop llength buf))
          ∙ ap₂
              (λ (q : ℕ) (o : Option ℕ). Option.map (λ b. bit_xor b (chunk_key (spread_iv iv) q)) o)
              (unfold chunk_offset in ground arith)
              (get_elem?-drop llength buf (p - llength) ∙ ap (get_elem? buf) (omega arith))
    ]
  ]

  -- `crypt` lays the byte `key_byte iv p` over byte `p` of every packet, of whatever length, and
  -- its loop over the chunks ends.
  pub crypt-key_byte :
      (buf : List ℕ) (p : ℕ)
      → get_elem? (crypt iv buf).buf p
        ≡ Option.map (λ b. bit_xor b (key_byte iv p)) (get_elem? buf p)
  unfolding crypt key_byte
  crypt-key_byte buf p = crypt_chunks-key (length buf) 0x5b0 buf p (omega arith) (omega arith)
