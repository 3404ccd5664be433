-- ===== src/Crypt/Scramble.antt =====
-- The six passes over a packet's bytes that `encryption_context_encrypt` makes before the cipher
-- and `decryption_context_decrypt` undoes after it. The passes go over the `length` bytes at
-- `data`, which are the list; a pass from the end handles the tail of the list first.
pub mod Inverse
use syrup.Base.{
  ℕ, zero, suc, ◌+◌, ◌-◌, ◌%◌, Bool, List, [], ◌∷◌, bit_xor, u8, length, ◌==◌, if◌then◌else◌,
}
use syrup.Crypt.Roll.{roll_left, roll_right}

-- The loop of an even pass of `encryption_context_encrypt`, with `remember` and `data_length`.
pub encrypt_forward : ℕ → ℕ → List ℕ → List ℕ
encrypt_forward remember data_length [] = []
encrypt_forward remember data_length (b ∷ buf) =
    let cur = u8 (bit_xor (roll_left b 3 + data_length) remember) in
    let left = u8 (data_length + 255) in
    u8 (255 - roll_right cur (u8 (left + 1)) + 0x48) ∷ encrypt_forward cur left buf

-- What a loop from the end of the data has made of a suffix: the bytes, `remember` and
-- `data_length`.
pub record Back : Type 0 where
  pub bytes : List ℕ
  pub remember : ℕ
  pub data_length : ℕ

encrypt_back_byte : ℕ → Back → Back
encrypt_back_byte b s =
    let cur = u8 (bit_xor (roll_left b 4 + s.data_length) s.remember) in
    record {
      bytes = roll_right (bit_xor cur 0x13) 3 ∷ s.bytes;
      remember = cur;
      data_length = u8 (s.data_length + 255);
    }

-- The loop of an odd pass of `encryption_context_encrypt`.
pub encrypt_backward : ℕ → List ℕ → Back
unfolding encrypt_back_byte
encrypt_backward data_length [] = record { bytes = []; remember = 0; data_length = data_length }
encrypt_backward data_length (b ∷ buf) = encrypt_back_byte b (encrypt_backward data_length buf)

-- The loop of an even pass of `decryption_context_decrypt`.
pub decrypt_forward : ℕ → ℕ → List ℕ → List ℕ
decrypt_forward remember data_length [] = []
decrypt_forward remember data_length (b ∷ buf) =
    let cur = roll_left (u8 (255 - u8 (b + 256 - 0x48))) data_length in
    roll_right (u8 (bit_xor cur remember + 256 - data_length)) 3
    ∷ decrypt_forward cur (u8 (data_length + 255)) buf

decrypt_back_byte : ℕ → Back → Back
decrypt_back_byte b s =
    let cur = bit_xor (roll_left b 3) 0x13 in
    record {
      bytes = roll_right (u8 (bit_xor cur s.remember + 256 - s.data_length)) 4 ∷ s.bytes;
      remember = cur;
      data_length = u8 (s.data_length + 255);
    }

-- The loop of an odd pass of `decryption_context_decrypt`.
pub decrypt_backward : ℕ → List ℕ → Back
unfolding decrypt_back_byte
decrypt_backward data_length [] = record { bytes = []; remember = 0; data_length = data_length }
decrypt_backward data_length (b ∷ buf) = decrypt_back_byte b (decrypt_backward data_length buf)

-- One pass `j` of either function; `remember` starts at 0 and `data_length` at the cast of the
-- length.
encrypt_pass : ℕ → List ℕ → List ℕ
encrypt_pass j buf =
    if j % 2 == 0
    then encrypt_forward 0 (u8 (length buf)) buf
    else (encrypt_backward (u8 (length buf)) buf).bytes

decrypt_pass : ℕ → List ℕ → List ℕ
decrypt_pass j buf =
    if j % 2 == 0
    then decrypt_forward 0 (u8 (length buf)) buf
    else (decrypt_backward (u8 (length buf)) buf).bytes

-- The loops over `j`, with the rounds left: `j` from 0 to 5, and from 1 to 6.
pub scramble : (left j : ℕ) → List ℕ → List ℕ
unfolding encrypt_pass
scramble zero j buf = buf
scramble (suc left) j buf = scramble left (j + 1) (encrypt_pass j buf)

pub unscramble : (left j : ℕ) → List ℕ → List ℕ
unfolding decrypt_pass
unscramble zero j buf = buf
unscramble (suc left) j buf = unscramble left (j + 1) (decrypt_pass j buf)
