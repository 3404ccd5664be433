-- ===== src/Crypt.antt =====
-- src/crypt.c: the encryption and decryption contexts. A context is its initialisation vector,
-- with the version for the encrypting side; `data` with its `length` is a list of bytes.
pub mod Tables
pub mod Roll
pub mod Aes
pub mod Scramble
pub mod Stream
pub mod RoundTrip
pub mod Header
use syrup.Base.{
  ℕ, ◌+◌, ◌*◌, ◌/◌, ◌%◌, ◌^◌, Bool, true, false, Option, none, some, List, [], ◌∷◌, bit_and, bit_or,
  bit_xor, u8, u16,
}
use syrup.Crypt.Scramble.{scramble, unscramble}
use syrup.Crypt.Stream.{Iv, Crypted, crypt}

pub record EncryptionContext : Type 0 where
  pub iv : Iv
  pub maple_version : ℕ

pub record DecryptionContext : Type 0 where
  pub iv : Iv

-- `allocated` says whether `malloc` succeeded. The version's two bytes are swapped.
unfoldable pub encryption_context_new : (allocated : Bool) → Iv → ℕ → Option EncryptionContext
encryption_context_new false iv version = none
encryption_context_new true iv version = some (record {
  iv = iv;
  maple_version = bit_or (bit_and (version / 256) 0xff) (bit_and (version * 256) 0xff00);
})

pub decryption_context_new : (allocated : Bool) → Iv → Option DecryptionContext
decryption_context_new false iv = none
decryption_context_new true iv = some (record { iv = iv })

-- The context and the bytes that an operation leaves.
pub record Encrypted : Type 0 where
  pub context : EncryptionContext
  pub buf : List ℕ

pub record Decrypted : Type 0 where
  pub context : DecryptionContext
  pub buf : List ℕ

pub encryption_context_encrypt : EncryptionContext → List ℕ → Encrypted
encryption_context_encrypt context buf =
    let r = crypt context.iv (scramble 6 0 buf) in
    record { context = record context { iv = r.iv }; buf = r.buf }

pub decryption_context_decrypt : DecryptionContext → List ℕ → Decrypted
decryption_context_decrypt context buf =
    let r = crypt context.iv buf in
    record { context = record { iv = r.iv }; buf = unscramble 6 1 r.buf }

-- The four bytes of the header: the vector's upper half under the version, and under the size too.
pub encryption_context_header : EncryptionContext → ℕ → List ℕ
encryption_context_header context size =
    let iiv = bit_xor (bit_or context.iv.b₃ (u16 (context.iv.b₂ * 256))) context.maple_version in
    let xor_iv = u16 (bit_xor iiv (bit_or (size * 256) (size / 256))) in
    u8 (iiv / 256) ∷ u8 iiv ∷ u8 (xor_iv / 256) ∷ u8 xor_iv ∷ []
