-- ===== src/Crypt/Aes.antt =====
-- `AES_ECB_encrypt` of src/crypt.c over the fixed round keys `CONTEXT`. The state is the block's
-- sixteen bytes in the order of the buffer: `(*state)[i][j]` is the byte `4 * i + j`.
use syrup.Base.{
  ℕ, zero, suc, ◌+◌, ◌*◌, ◌/◌, ◌%◌, List, [], ◌∷◌, ◌++◌, bit_xor, u8, get_or, take, drop, ◌==◌,
  if◌then◌else◌,
}
use syrup.Crypt.Tables.{sbox, round_key}

-- `data[i] ^= key[i]` over the bytes of the first list.
pub xor_bytes : List ℕ → List ℕ → List ℕ
xor_bytes [] ks = []
xor_bytes (b ∷ bs) [] = b ∷ bs
xor_bytes (b ∷ bs) (k ∷ ks) = bit_xor b k ∷ xor_bytes bs ks

add_round_key : ℕ → List ℕ → List ℕ
unfolding xor_bytes
add_round_key round state = xor_bytes state (take 16 (drop (round * 16) round_key))

xtime : ℕ → ℕ
xtime x = u8 (bit_xor (x * 2) (x / 128 % 2 * 0x1b))

sub_bytes : List ℕ → List ℕ
sub_bytes [] = []
sub_bytes (b ∷ state) = get_or sbox b 0 ∷ sub_bytes state

-- The rows are rotated by one, two and three columns.
shift_rows : List ℕ → List ℕ
shift_rows (a₀ ∷ a₁ ∷ a₂ ∷ a₃ ∷ b₀ ∷ b₁ ∷ b₂ ∷ b₃ ∷ c₀ ∷ c₁ ∷ c₂ ∷ c₃ ∷ d₀ ∷ d₁ ∷ d₂ ∷ d₃ ∷ []) =
    a₀ ∷ b₁ ∷ c₂ ∷ d₃ ∷ b₀ ∷ c₁ ∷ d₂ ∷ a₃ ∷ c₀ ∷ d₁ ∷ a₂ ∷ b₃ ∷ d₀ ∷ a₁ ∷ b₂ ∷ c₃ ∷ []
shift_rows state = state

-- One column of the loop, with `t`, `Tmp` and `Tm`.
mix_column : ℕ → ℕ → ℕ → ℕ → List ℕ
unfolding xtime
mix_column s₀ s₁ s₂ s₃ =
    let tmp = bit_xor (bit_xor (bit_xor s₀ s₁) s₂) s₃ in
    bit_xor s₀ (bit_xor (xtime (bit_xor s₀ s₁)) tmp)
    ∷ bit_xor s₁ (bit_xor (xtime (bit_xor s₁ s₂)) tmp)
    ∷ bit_xor s₂ (bit_xor (xtime (bit_xor s₂ s₃)) tmp)
    ∷ bit_xor s₃ (bit_xor (xtime (bit_xor s₃ s₀)) tmp)
    ∷ []

mix_columns : List ℕ → List ℕ
unfolding mix_column
mix_columns (s₀ ∷ s₁ ∷ s₂ ∷ s₃ ∷ state) = mix_column s₀ s₁ s₂ s₃ ++ mix_columns state
mix_columns state = []

-- The loop over `round` from 1, which breaks at the fourteenth before the columns are mixed.
aes_rounds : (left round : ℕ) → List ℕ → List ℕ
unfolding sub_bytes shift_rows mix_columns add_round_key
aes_rounds zero round state = state
aes_rounds (suc left) round state =
    let shifted = shift_rows (sub_bytes state) in
    let rest = aes_rounds left (round + 1) (add_round_key round (mix_columns shifted)) in
    if round == 14 then shifted else rest

pub aes_ecb_encrypt : List ℕ → List ℕ
unfolding add_round_key aes_rounds
aes_ecb_encrypt buf = add_round_key 14 (aes_rounds 14 1 (add_round_key 0 buf))
