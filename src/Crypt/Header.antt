-- ===== src/Crypt/Header.antt =====
-- The four bytes in front of a packet: the peer reads the size and the version back from them.
use syrup.Base.{
  ℕ, ◌+◌, ◌*◌, ◌/◌, ◌%◌, ◌^◌, ◌<◌, ◌≡◌, refl, true, some, List, [], ◌∷◌, bit_and, bit_or, bit_xor,
  u8, u16, arith, bit_xor_cancel, bit_xor_comm, bit_xor_fields, bit_or_fields, bit_or_comm, ap, ap₂,
  sym, ◌∙◌, bit_and_fields, bit_and-ff, bit_xor-lt-byte, get_or, length,
}
use syrup.Crypt.{EncryptionContext, encryption_context_new, encryption_context_header}
use syrup.Crypt.Stream.{Iv}

pub record IsIv (iv : Iv) : Type 0 where
  pub b₀ : iv.b₀ < 256
  pub b₁ : iv.b₁ < 256
  pub b₂ : iv.b₂ < 256
  pub b₃ : iv.b₃ < 256

-- The `uint32_t` that four bytes hold on a little-endian machine.
pub le32 : List ℕ → ℕ
le32 bs = get_or bs 0 0 + get_or bs 1 0 * 2 ^ 8 + get_or bs 2 0 * 2 ^ 16 + get_or bs 3 0 * 2 ^ 24

-- `(uint16_t) ((header >> 16) ^ header)`, as the input filters read the size.
pub header_size : ℕ → ℕ
header_size header = u16 (bit_xor (header / 2 ^ 16) header)

-- Two words, high byte first.
abbrev render : ℕ → ℕ → List ℕ
render i x = u8 (i / 256) ∷ u8 i ∷ u8 (x / 256) ∷ u8 x ∷ []

split_words :
    (a b c d : ℕ)
    → a < 256
    → b < 256
    → c < 256
    → d < 256
    → render (a * 256 + b) (c * 256 + d) ≡ a ∷ b ∷ c ∷ d ∷ []
split_words a b c d ha hb hc hd = ground arith

-- The header as exclusive ors of bytes.
header_bytes :
    (e : EncryptionContext) (size : ℕ)
    → e.iv.b₂ < 256
    → e.iv.b₃ < 256
    → e.maple_version < 65536
    → size < 65536
    → let hi = bit_xor e.iv.b₂ (e.maple_version / 256) in
      let lo = bit_xor e.iv.b₃ (e.maple_version % 256) in
      encryption_context_header e size
      ≡ hi ∷ lo ∷ bit_xor hi (size % 256) ∷ bit_xor lo (size / 256) ∷ []
unfolding encryption_context_header
header_bytes e size h₂ h₃ hv hs =
    ap (λ (i : ℕ). render i (u16 (bit_xor i (bit_or (size * 256) (size / 256))))) mixed
    ∙ ap (render (hi * 256 + lo)) sized
    ∙ split
  where
    version : ℕ
    version = e.maple_version

    hi : ℕ
    hi = bit_xor e.iv.b₂ (version / 256)

    lo : ℕ
    lo = bit_xor e.iv.b₃ (version % 256)

    hi-lt : hi < 256
    hi-lt = bit_xor-lt-byte e.iv.b₂ (version / 256) h₂ (omega arith)

    lo-lt : lo < 256
    lo-lt = bit_xor-lt-byte e.iv.b₃ (version % 256) h₃ (omega arith)

    mixed : bit_xor (bit_or e.iv.b₃ (u16 (e.iv.b₂ * 256))) version ≡ hi * 256 + lo
    mixed = ground (
      arith,
      bit_or_comm e.iv.b₃ (e.iv.b₂ * 256),
      bit_or_fields 8 e.iv.b₂ e.iv.b₃ h₃,
      bit_xor_fields 8 e.iv.b₂ e.iv.b₃ (version / 256) (version % 256) h₃ (omega arith),
    )

    sized :
        u16 (bit_xor (hi * 256 + lo) (bit_or (size * 256) (size / 256)))
        ≡ bit_xor hi (size % 256) * 256 + bit_xor lo (size / 256)
    sized = ground (
      arith,
      bit_or_fields 8 size (size / 256) (omega arith),
      bit_xor_fields 8 hi lo size (size / 256) lo-lt (omega arith),
      bit_xor_fields 8 0 hi (size / 256) (size % 256) hi-lt (omega arith),
      bit_xor-lt-byte hi (size % 256) hi-lt (omega arith),
      bit_xor-lt-byte lo (size / 256) lo-lt (omega arith),
    )

    split :
        render (hi * 256 + lo) (bit_xor hi (size % 256) * 256 + bit_xor lo (size / 256))
        ≡ hi ∷ lo ∷ bit_xor hi (size % 256) ∷ bit_xor lo (size / 256) ∷ []
    split =
        split_words hi lo (bit_xor hi (size % 256)) (bit_xor lo (size / 256)) hi-lt lo-lt
          (bit_xor-lt-byte hi (size % 256) hi-lt (omega arith))
          (bit_xor-lt-byte lo (size / 256) lo-lt (omega arith))

-- The lower word of the header against the upper one.
header_size-le32 :
    (hi lo size : ℕ)
    → hi < 256
    → lo < 256
    → size < 65536
    → header_size (le32 (hi ∷ lo ∷ bit_xor hi (size % 256) ∷ bit_xor lo (size / 256) ∷ [])) ≡ size
unfolding header_size le32
header_size-le32 hi lo size hhi hlo hs =
    let c = bit_xor hi (size % 256) in
    let d = bit_xor lo (size / 256) in
    let hc : c < 256 = bit_xor-lt-byte hi (size % 256) hhi (omega arith) in
    let hd : d < 256 = bit_xor-lt-byte lo (size / 256) hlo (omega arith) in
    let up : (hi + lo * 256 + c * 65536 + d * 16777216) / 65536 ≡ 0 * 65536 + (d * 256 + c) =
      omega arith in
    let whole : hi + lo * 256 + c * 65536 + d * 16777216 ≡ (d * 256 + c) * 65536 + (lo * 256 + hi) =
      omega arith in
    ap₂ (λ (a b : ℕ). u16 (bit_xor a b)) up whole
    ∙ ground (
      arith,
      bit_xor_fields 16 0 (d * 256 + c) (d * 256 + c) (lo * 256 + hi) (omega arith) (omega arith),
      bit_xor_fields 8 d c lo hi hc hhi,
      bit_xor_comm lo (size / 256),
      bit_xor_comm hi (size % 256),
      bit_xor_cancel (size / 256) lo,
      bit_xor_cancel (size % 256) hi,
    )

swapped :
    (version : ℕ)
    → version < 65536
    → bit_or (bit_and (version / 256) 0xff) (bit_and (version * 256) 0xff00)
      ≡ version % 256 * 256 + version / 256
swapped version h = ground (
  arith,
  bit_and-ff (version / 256),
  bit_and_fields 8 version 0 0xff 0 (omega arith) (omega arith),
  bit_and-ff version,
  bit_or_comm (version / 256) (version % 256 * 256),
  bit_or_fields 8 (version % 256) (version / 256) (omega arith),
)

-- The header of any context whose vector and version are in range.
pub header_fields :
    (e : EncryptionContext) (size : ℕ)
    → e.iv.b₂ < 256
    → e.iv.b₃ < 256
    → e.maple_version < 65536
    → size < 65536
    → let h = encryption_context_header e size in
      (header_size (le32 h) ≡ size)
      × (bit_xor (get_or h 0 0) e.iv.b₂ ≡ e.maple_version / 256)
      × (bit_xor (get_or h 1 0) e.iv.b₃ ≡ e.maple_version % 256)
header_fields e size h₂ h₃ hv hs = rw (header_bytes e size h₂ h₃ hv hs) (
  header_size-le32 _ _ size (bit_xor-lt-byte _ _ h₂ (omega arith))
      (bit_xor-lt-byte _ _ h₃ (omega arith)) hs,
  ap (λ (x : ℕ). bit_xor x e.iv.b₂) (bit_xor_comm e.iv.b₂ (e.maple_version / 256))
      ∙ bit_xor_cancel (e.maple_version / 256) e.iv.b₂,
  ap (λ (x : ℕ). bit_xor x e.iv.b₃) (bit_xor_comm e.iv.b₃ (e.maple_version % 256))
      ∙ bit_xor_cancel (e.maple_version % 256) e.iv.b₃,
)

pub length-header :
    (e : EncryptionContext) (size : ℕ) → length (encryption_context_header e size) ≡ 4
unfolding encryption_context_header
length-header e size = refl

-- What `encryption_context_new` puts into a context.
new_fields :
    (iv : Iv) (version : ℕ) (e : EncryptionContext)
    → version < 65536
    → encryption_context_new true iv version ≡ some e
    → (e.iv ≡ iv) × (e.maple_version ≡ version % 256 * 256 + version / 256)
unfolding encryption_context_new
new_fields iv version e hv made = (cc, ground (arith, swapped version hv))

-- A context that `encryption_context_new` makes for a 16-bit version writes headers from which the
-- size is read back the way the input filters read it, and the version with the two upper bytes of
-- the vector.
header_lem :
    (iv : Iv) (version size : ℕ) (e : EncryptionContext)
    → IsIv iv
    → version < 65536
    → size < 65536
    → encryption_context_new true iv version ≡ some e
    → let h = encryption_context_header e size in
      (header_size (le32 h) ≡ size)
      × (bit_xor (get_or h 0 0) iv.b₂ ≡ version % 256)
      × (bit_xor (get_or h 1 0) iv.b₃ ≡ version / 256)
header_lem iv version size e ok hv hs made =
    let (same, swap) = new_fields iv version e hv made in
    let (sized, high, low) =
      header_fields e size (rw same ok.b₂) (rw same ok.b₃) (omega arith) hs in
    (
      sized,
      ap (λ (v : Iv). bit_xor (get_or (encryption_context_header e size) 0 0) v.b₂) (sym same)
          ∙ high
          ∙ omega arith,
      ap (λ (v : Iv). bit_xor (get_or (encryption_context_header e size) 1 0) v.b₃) (sym same)
          ∙ low
          ∙ omega arith,
    )
