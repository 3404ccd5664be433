-- ===== src/Crypt/Scramble/Inverse.antt =====
-- The decrypting passes undo the encrypting ones, byte by byte.
use syrup.Base.{
  ℕ, suc, ◌+◌, ◌-◌, ◌<◌, ◌∙◌, ◌≡◌, refl, ap, List, [], ◌∷◌, bit_xor, u8, length, arith, IsBytes,
  bit_xor_cancel, bit_xor-lt-byte, u8-bit_xor,
}
use syrup.Crypt.Roll.{
  roll_left, roll_right, roll_left-lt, roll_right-lt, roll_left-roll_right, roll_right-roll_left,
}
use syrup.Crypt.Scramble.{
  Back, encrypt_forward, encrypt_back_byte, encrypt_backward, decrypt_forward, decrypt_back_byte,
  decrypt_backward, scramble, unscramble,
}

-- Removing `remember` and `data_length` from a mixed byte.
unmix :
    (b n remember : ℕ)
    → b < 256
    → n < 256
    → remember < 256
    → u8 (bit_xor (u8 (bit_xor (b + n) remember)) remember + 256 - n) ≡ b
unmix b n remember hb hn hr =
    rw (u8-bit_xor (b + n) remember hr, bit_xor_cancel (u8 (b + n)) remember) (omega arith)

-- The complement and the offset come off again.
unwhiten : (b : ℕ) → b < 256 → u8 (255 - u8 (u8 (255 - b + 0x48) + 256 - 0x48)) ≡ b
unwhiten b h = omega arith

forward-undone :
    (remember n : ℕ) (buf : List ℕ)
    → remember < 256
    → n < 256
    → IsBytes buf
    → decrypt_forward remember n (encrypt_forward remember n buf) ≡ buf
unfolding decrypt_forward encrypt_forward
forward-undone remember n [] hr hn bytes = refl
forward-undone remember n (b ∷ buf) hr hn bytes =
    let cur = u8 (bit_xor (roll_left b 3 + n) remember) in
    let count : u8 (u8 (n + 255) + 1) ≡ n = omega arith in
    rw
      (
        count,
        unwhiten (roll_right cur n) (roll_right-lt cur n),
        roll_left-roll_right cur n (omega arith),
        unmix (roll_left b 3) n remember (roll_left-lt b 3) hn hr,
        roll_right-roll_left b 3 bytes.0,
      )
      (ap (λ ds. b ∷ ds)
        (forward-undone cur (u8 (n + 255)) buf (omega arith) (omega arith) bytes.1))

-- The values that the loop carries stay bytes.
encrypt_backward-lt :
    (n : ℕ) (buf : List ℕ)
    → n < 256
    → ((encrypt_backward n buf).remember < 256) × ((encrypt_backward n buf).data_length < 256)
unfolding encrypt_backward
encrypt_backward-lt n [] h = (omega arith, h)
encrypt_backward-lt n (b ∷ buf) h = (omega arith, omega arith)

back_byte-undone :
    (b : ℕ) (s : Back) (buf : List ℕ)
    → b < 256
    → s.remember < 256
    → s.data_length < 256
    → let t = encrypt_back_byte b s in
      let c =
        roll_right (bit_xor (u8 (bit_xor (roll_left b 4 + s.data_length) s.remember)) 0x13) 3 in
      decrypt_back_byte c (record s { bytes = buf }) ≡ record t { bytes = b ∷ buf }
unfolding encrypt_back_byte decrypt_back_byte
back_byte-undone b s buf hb hr hn =
    let cur = u8 (bit_xor (roll_left b 4 + s.data_length) s.remember) in
    rw
      (
        roll_left-roll_right (bit_xor cur 0x13) 3
            (bit_xor-lt-byte cur 0x13 (omega arith) (omega arith)),
        bit_xor_cancel cur 0x13,
        unmix (roll_left b 4) s.data_length s.remember (roll_left-lt b 4) hn hr,
        roll_right-roll_left b 4 hb,
      )
      refl

backward-undone :
    (n : ℕ) (buf : List ℕ)
    → n < 256
    → IsBytes buf
    → decrypt_backward n (encrypt_backward n buf).bytes
      ≡ record (encrypt_backward n buf) { bytes = buf }
unfolding encrypt_backward decrypt_backward
backward-undone n [] hn bytes = refl
backward-undone n (b ∷ buf) hn bytes =
    let s = encrypt_backward n buf in
    let bounds = encrypt_backward-lt n buf hn in
    rw (backward-undone n buf hn bytes.1) (back_byte-undone b s buf bytes.0 bounds.0 bounds.1)

encrypt_forward-IsBytes :
    (remember n : ℕ) (buf : List ℕ)
    → IsBytes (encrypt_forward remember n buf)
      × (length (encrypt_forward remember n buf) ≡ length buf)
unfolding encrypt_forward
encrypt_forward-IsBytes remember n [] = (tt, refl)
encrypt_forward-IsBytes remember n (b ∷ buf) =
    let cur = u8 (bit_xor (roll_left b 3 + n) remember) in
    let rest = encrypt_forward-IsBytes cur (u8 (n + 255)) buf in
    ((omega arith, rest.0), ap suc rest.1)

encrypt_backward-IsBytes :
    (n : ℕ) (buf : List ℕ)
    → IsBytes (encrypt_backward n buf).bytes × (length (encrypt_backward n buf).bytes ≡ length buf)
unfolding encrypt_backward
encrypt_backward-IsBytes n [] = (tt, refl)
encrypt_backward-IsBytes n (b ∷ buf) =
    let rest = encrypt_backward-IsBytes n buf in ((roll_right-lt _ _, rest.0), ap suc rest.1)

-- The passes as `scramble` and `unscramble` make them.
abbrev forward : List ℕ → List ℕ
forward buf = encrypt_forward 0 (u8 (length buf)) buf

abbrev unforward : List ℕ → List ℕ
unforward buf = decrypt_forward 0 (u8 (length buf)) buf

abbrev backward : List ℕ → List ℕ
backward buf = (encrypt_backward (u8 (length buf)) buf).bytes

abbrev unbackward : List ℕ → List ℕ
unbackward buf = (decrypt_backward (u8 (length buf)) buf).bytes

unforward-forward : (buf : List ℕ) → IsBytes buf → unforward (forward buf) ≡ buf
unforward-forward buf bytes =
    let n = u8 (length buf) in
    rw ((encrypt_forward-IsBytes 0 n buf).1)
      (forward-undone 0 n buf (omega arith) (omega arith) bytes)

unbackward-backward : (buf : List ℕ) → IsBytes buf → unbackward (backward buf) ≡ buf
unbackward-backward buf bytes =
    let n = u8 (length buf) in
    ap (λ (m : ℕ). (decrypt_backward (u8 m) (backward buf)).bytes)
      (encrypt_backward-IsBytes n buf).1
    ∙ ap (λ (s : Back). s.bytes) (backward-undone n buf (omega arith) bytes)

forward-IsBytes : (buf : List ℕ) → IsBytes (forward buf)
forward-IsBytes buf = (encrypt_forward-IsBytes 0 (u8 (length buf)) buf).0

backward-IsBytes : (buf : List ℕ) → IsBytes (backward buf)
backward-IsBytes buf = (encrypt_backward-IsBytes (u8 (length buf)) buf).0

twice : List ℕ → List ℕ
twice buf = backward (forward buf)

untwice : List ℕ → List ℕ
untwice buf = unforward (unbackward buf)

untwice-twice : (buf : List ℕ) → IsBytes buf → untwice (twice buf) ≡ buf
unfolding twice untwice
untwice-twice buf bytes =
    rw (unbackward-backward (forward buf) (forward-IsBytes buf)) (unforward-forward buf bytes)

twice-IsBytes : (buf : List ℕ) → IsBytes (twice buf)
unfolding twice
twice-IsBytes buf = backward-IsBytes (forward buf)

scramble-twice : (buf : List ℕ) → scramble 6 0 buf ≡ twice (twice (twice buf))
unfolding scramble twice
scramble-twice buf = refl

unscramble-untwice : (buf : List ℕ) → unscramble 6 1 buf ≡ untwice (untwice (untwice buf))
unfolding unscramble untwice
unscramble-untwice buf = refl

-- The six passes of the decryption undo the six of the encryption, on every packet.
pub unscramble-scramble : (buf : List ℕ) → IsBytes buf → unscramble 6 1 (scramble 6 0 buf) ≡ buf
unscramble-scramble buf bytes =
    rw
      (
        scramble-twice buf,
        unscramble-untwice (twice (twice (twice buf))),
        untwice-twice (twice (twice buf)) (twice-IsBytes (twice buf)),
        untwice-twice (twice buf) (twice-IsBytes buf),
      )
      (untwice-twice buf bytes)

-- The passes keep the number of bytes, and their values are bytes.
pub scramble-IsBytes :
    (buf : List ℕ) → IsBytes (scramble 6 0 buf) × (length (scramble 6 0 buf) ≡ length buf)
scramble-IsBytes buf = rw (scramble-twice buf) (twice-IsBytes _, same _ ∙ same _ ∙ same buf)
  where
    same : (xs : List ℕ) → length (twice xs) ≡ length xs
    same xs =
        unfold twice in
        (encrypt_backward-IsBytes (u8 (length (forward xs))) (forward xs)).1
        ∙ (encrypt_forward-IsBytes 0 (u8 (length xs)) xs).1
