-- ===== src/Crypt/Stream.antt =====
-- `crypt` of src/crypt.c: the key stream that is laid over a packet in chunks of 0x5B0 and then
-- 0x5B4 bytes, each started again from the initialisation vector, and the vector's renewal.
pub mod Laws
pub mod Keystream
use syrup.Base.{
  ℕ, zero, suc, ◌+◌, ◌-◌, ◌*◌, ◌/◌, ◌%◌, ◌^◌, List, [], ◌∷◌, ◌++◌, bit_xor, bit_or, u8, u32, get_or,
  take, drop, length, ◌==◌, ltb, if◌then◌else◌,
}
use syrup.Crypt.Aes.{aes_ecb_encrypt}
use syrup.Crypt.Tables.{funny_bytes}

-- The four bytes of an initialisation vector.
pub record Iv : Type 0 where
  pub b₀ : ℕ
  pub b₁ : ℕ
  pub b₂ : ℕ
  pub b₃ : ℕ

-- `my_iv[i] = iv[i % 4]`
pub spread_iv : Iv → List ℕ
spread_iv iv =
    let quad : List ℕ = iv.b₀ ∷ iv.b₁ ∷ iv.b₂ ∷ iv.b₃ ∷ [] in quad ++ (quad ++ (quad ++ quad))

-- The inner loop from offset `k = i - start` in the chunk: every sixteen bytes the block is
-- encrypted again.
pub xor_chunk : ℕ → List ℕ → List ℕ → List ℕ
xor_chunk k my_iv [] = []
xor_chunk k my_iv (b ∷ buf) =
    let block = if k % 16 == 0 then aes_ecb_encrypt my_iv else my_iv in
    bit_xor b (get_or block (k % 16) 0) ∷ xor_chunk (k + 1) block buf

-- `llength` of a round, with `length` bytes left.
pub chunk_size : (have llength : ℕ) → ℕ
chunk_size have llength = if ltb have llength then have else llength

-- The outer loop, on fuel: each round with bytes left takes at least one.
pub crypt_chunks : (fuel llength : ℕ) → Iv → List ℕ → List ℕ
crypt_chunks zero llength iv buf = buf
crypt_chunks (suc fuel) llength iv buf =
    let n = chunk_size (length buf) llength in
    let rest = xor_chunk 0 (spread_iv iv) (take n buf) ++ crypt_chunks fuel 0x5b4 iv (drop n buf) in
    if length buf == 0 then buf else rest

-- One round of the loop that renews the vector by its byte `b`.
pub renew_step : ℕ → Iv → Iv
renew_step b v =
    let n₀ = u8 (v.b₀ + get_or funny_bytes v.b₁ 0 + 256 - b) in
    let n₁ = u8 (v.b₁ + 256 - bit_xor v.b₂ (get_or funny_bytes b 0)) in
    let n₂ = u8 (bit_xor v.b₂ (get_or funny_bytes v.b₃ 0 + b)) in
    let n₃ = u8 (v.b₃ + 256 - n₀ + get_or funny_bytes b 0) in
    let merry = bit_or (bit_or (bit_or n₀ (n₁ * 2 ^ 8)) (n₂ * 2 ^ 16)) (n₃ * 2 ^ 24) in
    let rolled = bit_or (merry / 2 ^ 29) (u32 (merry * 2 ^ 3)) in
    record {
      b₀ = u8 rolled;
      b₁ = u8 (rolled / 2 ^ 8);
      b₂ = u8 (rolled / 2 ^ 16);
      b₃ = u8 (rolled / 2 ^ 24);
    }

pub renew_iv : Iv → Iv
renew_iv iv = renew_step iv.b₃ (
    renew_step iv.b₂
      (renew_step iv.b₁ (renew_step iv.b₀ (record { b₀ = 0xf2; b₁ = 0x53; b₂ = 0x50; b₃ = 0xc6 }))))

-- The data and the vector that `crypt` leaves.
pub record Crypted : Type 0 where
  pub buf : List ℕ
  pub iv : Iv

pub crypt : Iv → List ℕ → Crypted
crypt iv buf = record { buf = crypt_chunks (length buf) 0x5b0 iv buf; iv = renew_iv iv }
