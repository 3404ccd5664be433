-- ===== src/Crypt/Stream/Laws.antt =====
-- The key stream: laying it over twice gives the data back, and each byte of it stands alone.
use syrup.Base.{
  ℕ, zero, suc, ◌+◌, ◌%◌, ◌≤◌, ◌<◌, ◌≡◌, refl, sym, ◌∙◌, true, false, take-append-drop, take-append,
  drop-append, ap, ap₂, List, [], ◌∷◌, ◌++◌, length, take, drop, arith, get_or, ◌==◌, if◌then◌else◌,
  bit_xor_cancel, length-append, length-take, length-drop,
}
use syrup.Crypt.Aes.{aes_ecb_encrypt}
use syrup.Crypt.Stream.{Iv, spread_iv, chunk_size, xor_chunk, crypt_chunks, renew_iv, crypt}

pub length-xor_chunk : (k : ℕ) (my_iv buf : List ℕ) → length (xor_chunk k my_iv buf) ≡ length buf
unfolding xor_chunk
length-xor_chunk k my_iv [] = refl
length-xor_chunk k my_iv (b ∷ buf) = ap suc (length-xor_chunk (k + 1) _ buf)

xor_chunk-xor_chunk : (k : ℕ) (my_iv buf : List ℕ) → xor_chunk k my_iv (xor_chunk k my_iv buf) ≡ buf
unfolding xor_chunk
xor_chunk-xor_chunk k my_iv [] = refl
xor_chunk-xor_chunk k my_iv (b ∷ buf) =
    let block = if k % 16 == 0 then aes_ecb_encrypt my_iv else my_iv in
    ap₂ ◌∷◌ (bit_xor_cancel b (get_or block (k % 16) 0)) (xor_chunk-xor_chunk (k + 1) block buf)

pub chunk_size-le : (have llength : ℕ) → chunk_size have llength ≤ have
unfolding chunk_size
chunk_size-le have llength = ground arith

-- A round of the outer loop that has bytes left.
pub round :
    (fuel llength : ℕ) (iv : Iv) (buf : List ℕ)
    → 0 < length buf
    → let n = chunk_size (length buf) llength in
      crypt_chunks (suc fuel) llength iv buf
      ≡ xor_chunk 0 (spread_iv iv) (take n buf) ++ crypt_chunks fuel 0x5b4 iv (drop n buf)
unfolding crypt_chunks
round fuel llength iv buf h = let e : (length buf == 0) ≡ false = ground arith in rw e

round-nil :
    (fuel llength : ℕ) (iv : Iv) (buf : List ℕ)
    → length buf ≡ 0
    → crypt_chunks fuel llength iv buf ≡ buf
unfolding crypt_chunks
round-nil zero llength iv buf h = refl
round-nil (suc fuel) llength iv buf h = let e : (length buf == 0) ≡ true = ground arith in rw e

pub length-crypt_chunks :
    (fuel llength : ℕ) (iv : Iv) (buf : List ℕ)
    → length (crypt_chunks fuel llength iv buf) ≡ length buf
unfolding crypt_chunks
length-crypt_chunks zero llength iv buf = refl
length-crypt_chunks (suc fuel) llength iv [] = refl
length-crypt_chunks (suc fuel) llength iv (b ∷ buf) =
    let n = chunk_size (length (b ∷ buf)) llength in
    let front = xor_chunk 0 (spread_iv iv) (take n (b ∷ buf)) in
    ap length (round fuel llength iv (b ∷ buf) (omega arith))
    ∙ omega (
      arith,
      length-append front (crypt_chunks fuel 0x5b4 iv (drop n (b ∷ buf))),
      length-xor_chunk 0 (spread_iv iv) (take n (b ∷ buf)),
      length-crypt_chunks fuel 0x5b4 iv (drop n (b ∷ buf)),
      length-take n (b ∷ buf),
      length-drop n (b ∷ buf),
    )

-- A second run over data of the same shape, chunk by chunk.
second_round :
    (fuel llength : ℕ) (iv : Iv) (buf front back : List ℕ)
    → 0 < length buf
    → length front ≡ chunk_size (length buf) llength
    → length (front ++ back) ≡ length buf
    → crypt_chunks (suc fuel) llength iv (front ++ back)
      ≡ xor_chunk 0 (spread_iv iv) front ++ crypt_chunks fuel 0x5b4 iv back
second_round fuel llength iv buf front back h size same =
    round fuel llength iv (front ++ back) (omega arith)
    ∙ ap₂ (λ (xs ys : List ℕ). xor_chunk 0 (spread_iv iv) xs ++ crypt_chunks fuel 0x5b4 iv ys)
        (ap (λ (m : ℕ). take m (front ++ back)) cut ∙ take-append front back)
        (ap (λ (m : ℕ). drop m (front ++ back)) cut ∙ drop-append front back)
  where
    cut : chunk_size (length (front ++ back)) llength ≡ length front
    cut = ap (λ (m : ℕ). chunk_size m llength) same ∙ sym size

crypt_chunks-crypt_chunks :
    (fuel llength : ℕ) (iv : Iv) (buf : List ℕ)
    → crypt_chunks fuel llength iv (crypt_chunks fuel llength iv buf) ≡ buf
crypt_chunks-crypt_chunks zero llength iv buf = unfold crypt_chunks in refl
crypt_chunks-crypt_chunks (suc fuel) llength iv [] = unfold crypt_chunks in refl
crypt_chunks-crypt_chunks (suc fuel) llength iv (b ∷ buf) =
    ap (crypt_chunks (suc fuel) llength iv) first
    ∙ second_round fuel llength iv (b ∷ buf) front back (omega arith)
        (omega (
          arith,
          length-xor_chunk 0 (spread_iv iv) (take n (b ∷ buf)),
          length-take n (b ∷ buf),
          chunk_size-le (length (b ∷ buf)) llength,
        ))
        (ap length (sym first) ∙ length-crypt_chunks (suc fuel) llength iv (b ∷ buf))
    ∙ ap₂ ◌++◌ (xor_chunk-xor_chunk 0 (spread_iv iv) (take n (b ∷ buf)))
        (crypt_chunks-crypt_chunks fuel 0x5b4 iv (drop n (b ∷ buf)))
    ∙ take-append-drop n (b ∷ buf)
  where
    n : ℕ
    n = chunk_size (length (b ∷ buf)) llength

    front : List ℕ
    front = xor_chunk 0 (spread_iv iv) (take n (b ∷ buf))

    back : List ℕ
    back = crypt_chunks fuel 0x5b4 iv (drop n (b ∷ buf))

    first : crypt_chunks (suc fuel) llength iv (b ∷ buf) ≡ front ++ back
    first = round fuel llength iv (b ∷ buf) (omega arith)

-- The cipher is its own inverse under the same vector.
pub crypt-crypt : (iv : Iv) (buf : List ℕ) → (crypt iv (crypt iv buf).buf).buf ≡ buf
unfolding crypt
crypt-crypt iv buf =
    ap (λ (m : ℕ). crypt_chunks m 0x5b0 iv (crypt_chunks (length buf) 0x5b0 iv buf))
      (length-crypt_chunks (length buf) 0x5b0 iv buf)
    ∙ crypt_chunks-crypt_chunks (length buf) 0x5b0 iv buf

-- The renewed vector depends on the vector alone.
pub crypt-renew_iv : (iv : Iv) (buf : List ℕ) → (crypt iv buf).iv ≡ renew_iv iv
unfolding crypt
crypt-renew_iv iv buf = refl

pub length-crypt : (iv : Iv) (buf : List ℕ) → length (crypt iv buf).buf ≡ length buf
unfolding crypt
length-crypt iv buf = length-crypt_chunks (length buf) 0x5b0 iv buf
