-- ===== src/Client/Level/Table.antt =====
-- The table of experience, and a character's place in it.
use syrup.Base.{
  ℕ, zero, suc, ◌+◌, ◌-◌, ◌≤◌, ◌<◌, ◌≡◌, refl, Bool, true, ◌&&◌, ltb, some, List, [], ◌∷◌,
  get_elem?, length, arith,
}
use syrup.Base.Int.{ℤ, pos, pos_part}
use syrup.Character.{Character}
use syrup.Client.Level.{exp_table}

-- What the first levels of a table take together.
unfoldable pub spent : List ℕ → ℕ → ℕ
spent xs zero = 0
spent [] (suc n) = 0
spent (x ∷ xs) (suc n) = x + spent xs n

pub spent-suc :
    (xs : List ℕ) (n c : ℕ) → get_elem? xs n ≡ some c → spent xs (suc n) ≡ spent xs n + c
unfolding spent
spent-suc [] n c h = absurd (cc)
spent-suc (x ∷ xs) zero c h = ground arith
spent-suc (x ∷ xs) (suc n) c h = omega (arith, spent-suc xs n c h)

pub spent_mono : (xs : List ℕ) (n m : ℕ) → n ≤ m → spent xs n ≤ spent xs m
unfolding spent
spent_mono xs zero m h = omega arith
spent_mono xs (suc n) zero h = absurd (omega arith)
spent_mono [] (suc n) (suc m) h = omega arith
spent_mono (x ∷ xs) (suc n) (suc m) h = omega (arith, spent_mono xs n m (omega arith))

-- An entry of a table is positive and an `int32_t`.
abbrev pub is_entry : ℕ → Bool
is_entry c = ltb 0 c && ltb c 2147483648

unfoldable pub are_entries : List ℕ → Bool
are_entries [] = true
are_entries (x ∷ xs) = is_entry x && are_entries xs

entry_at :
    (xs : List ℕ) (n : ℕ)
    → are_entries xs ≡ true
    → n < length xs
    → (c : ℕ) × (get_elem? xs n ≡ some c) × (0 < c) × (c < 2147483648)
unfolding are_entries
entry_at [] n h lt = absurd (omega arith)
entry_at (x ∷ xs) zero h lt = (x, refl, ground arith, ground arith)
entry_at (x ∷ xs) (suc n) h lt = entry_at xs n (ground arith) (omega arith)

pub table_entries : (are_entries exp_table ≡ true) × (length exp_table ≡ 200)
unfolding are_entries exp_table
table_entries = (refl, refl)

-- A level of the table, with less experience than it takes.
pub record Standing (level : ℕ) (exp : ℤ) : Type 0 where
  pub low : 1 ≤ level
  pub high : level ≤ 200
  pub points : ℕ
  pub is_points : exp ≡ pos points
  pub needed : ℕ
  pub entry : get_elem? exp_table (level - 1) ≡ some needed
  pub below : points < needed
  pub fits : needed < 2147483648

-- All the experience that a character has had.
unfoldable pub experience : Character → ℕ
experience chr = spent exp_table (chr.level - 1) + pos_part chr.exp

-- A level's start.
pub start-Standing : (level : ℕ) → 1 ≤ level → level ≤ 200 → Standing level (pos 0)
start-Standing level low high =
    let (c, at, positive, fits) =
      entry_at exp_table (level - 1) table_entries.0 (omega (arith, table_entries.1)) in
    record {
      low = low;
      high = high;
      points = 0;
      is_points = refl;
      needed = c;
      entry = at;
      below = positive;
      fits = fits;
    }
