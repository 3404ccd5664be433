-- ===== src/Crypt/RoundTrip.antt =====
-- Decryption undoes encryption, and the two contexts stay in step.
use syrup.Base.{ℕ, ◌≡◌, refl, sym, ◌∙◌, ap, ap₂, List, [], ◌∷◌, length, IsBytes}
use syrup.Crypt.{
  EncryptionContext, DecryptionContext, encryption_context_encrypt, decryption_context_decrypt,
}
use syrup.Crypt.Scramble.{scramble, unscramble}
use syrup.Crypt.Scramble.Inverse.{unscramble-scramble, scramble-IsBytes}
use syrup.Crypt.Stream.{Iv, crypt, renew_iv}
use syrup.Crypt.Stream.Laws.{crypt-crypt, crypt-renew_iv, length-crypt}

-- Under equal vectors, decrypting an encrypted packet gives its bytes back, and the vectors of the
-- two contexts are equal again after it.
pub decrypt-encrypt :
    (e : EncryptionContext) (d : DecryptionContext) (buf : List ℕ)
    → e.iv ≡ d.iv
    → IsBytes buf
    → let sent = encryption_context_encrypt e buf in
      let got = decryption_context_decrypt d sent.buf in
      (got.buf ≡ buf) × (sent.context.iv ≡ got.context.iv)
unfolding encryption_context_encrypt decryption_context_decrypt
decrypt-encrypt e d buf same bytes = (
  ap (λ (v : Iv). unscramble 6 1 (crypt v (crypt e.iv (scramble 6 0 buf)).buf).buf) (sym same)
      ∙ ap (unscramble 6 1) (crypt-crypt e.iv (scramble 6 0 buf))
      ∙ unscramble-scramble buf bytes,
  crypt-renew_iv e.iv (scramble 6 0 buf)
      ∙ ap renew_iv same
      ∙ sym (crypt-renew_iv d.iv (crypt e.iv (scramble 6 0 buf)).buf),
)

-- Encryption keeps the number of bytes, so that the header's size is that of the packet.
pub length-encrypt :
    (e : EncryptionContext) (buf : List ℕ)
    → length (encryption_context_encrypt e buf).buf ≡ length buf
unfolding encryption_context_encrypt
length-encrypt e buf = length-crypt e.iv (scramble 6 0 buf) ∙ (scramble-IsBytes buf).1

-- The packets of a connection, encrypted or decrypted one after the other under one context.
pub encrypt_all : EncryptionContext → List (List ℕ) → List (List ℕ)
encrypt_all e [] = []
encrypt_all e (buf ∷ packets) =
    let sent = encryption_context_encrypt e buf in sent.buf ∷ encrypt_all sent.context packets

pub decrypt_all : DecryptionContext → List (List ℕ) → List (List ℕ)
decrypt_all d [] = []
decrypt_all d (buf ∷ packets) =
    let got = decryption_context_decrypt d buf in got.buf ∷ decrypt_all got.context packets

abbrev pub AreBytes : List (List ℕ) → Type 0
AreBytes [] = Unit {0}
AreBytes (buf ∷ packets) = IsBytes buf × AreBytes packets

-- Two contexts that start from one vector stay in step: every packet of a connection, however many
-- were sent before it, is decrypted to the bytes that were encrypted.
pub decrypt_all-encrypt_all :
    (e : EncryptionContext) (d : DecryptionContext) (packets : List (List ℕ))
    → e.iv ≡ d.iv
    → AreBytes packets
    → decrypt_all d (encrypt_all e packets) ≡ packets
unfolding encrypt_all decrypt_all
decrypt_all-encrypt_all e d [] same bytes = refl
decrypt_all-encrypt_all e d (buf ∷ packets) same bytes =
    let (back, step) = decrypt-encrypt e d buf same bytes.0 in
    ap₂ ◌∷◌ back (
      decrypt_all-encrypt_all (encryption_context_encrypt e buf).context
        (decryption_context_decrypt d (encryption_context_encrypt e buf).buf).context packets step
        bytes.1)
