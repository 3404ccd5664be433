-- ===== src/Reader.antt =====
-- src/reader.c: reading a received packet. A `struct Reader` is its size, its position and the
-- memory behind `packet`. A read returns `some` of its result and the reader after it; its result
-- is `none` where the C function returns false. The outer `none` is an access out of the memory.
-- Positions are sizes of 64 bits and wrap.
pub mod RoundTrip
pub mod Bounds
use syrup.Base.{
  ℕ, zero, suc, ◌+◌, ◌*◌, ◌%◌, Bool, true, false, ◌==◌, ◌||◌, Option, none, some, List, [], ◌∷◌,
  length, take, drop, ltb, if◌then◌else◌,
}

pub record Reader : Type 0 where
  pub size : ℕ
  pub pos : ℕ
  pub packet : List ℕ

-- A `size_t`.
abbrev pub word : ℕ → ℕ
word n = n % 18446744073709551616

pub reader_init : ℕ → List ℕ → Reader
reader_init size packet = record { size = size; pos = 0; packet = packet }

pub reader_end : Reader → Bool
reader_end r = r.pos == r.size

pub reader_skip : ℕ → Reader → Reader
reader_skip len r = record r { pos = word (r.pos + len) }

-- The value that a read delivers, if it does, and the reader that it leaves.
abbrev pub Read : Type 0 → Type 0
Read A = Option (Option A × Reader)

-- The little-endian integer in a list of bytes.
unfoldable pub from_bytes : List ℕ → ℕ
from_bytes [] = 0
from_bytes (b ∷ bs) = b + 256 * from_bytes bs

-- `memcpy` from the position, and the position's advance.
pub load : ℕ → Reader → Read (List ℕ)
load n r =
    if ltb (length r.packet) (r.pos + n)
    then none
    else some (some (take n (drop r.pos r.packet)), record r { pos = word (r.pos + n) })

pub reader_array : ℕ → Reader → Read (List ℕ)
reader_array len r = if ltb r.size (word (r.pos + len)) then some (none, r) else load len r

-- The fixed-width reads are a read of so many bytes into the variable.
integer : ℕ → Reader → Read ℕ
integer width r =
    if ltb r.size (word (r.pos + width)) then some (none, r) else elim (load width r) [
      | none ↦ none
      | some (none, s) ↦ some (none, s)
      | some (some bytes, s) ↦ some (some (from_bytes bytes), s)
    ]

pub reader_i8 : Reader → Read ℕ
reader_i8 = integer 1

pub reader_u8 : Reader → Read ℕ
reader_u8 = integer 1

pub reader_i16 : Reader → Read ℕ
reader_i16 = integer 2

pub reader_u16 : Reader → Read ℕ
reader_u16 = integer 2

pub reader_i32 : Reader → Read ℕ
reader_i32 = integer 4

pub reader_u32 : Reader → Read ℕ
reader_u32 = integer 4

-- The string behind a length that was read: the length is held against the caller's maximum and
-- against the packet. The read of the length is not taken back.
sized : ℕ → ℕ → Reader → Read (List ℕ)
sized max_len len r =
    if ltb max_len len || ltb r.size (word (r.pos + len)) then some (none, r) else load len r

pub reader_sized_string : ℕ → Reader → Read (List ℕ)
reader_sized_string max_len r = elim (reader_u16 r) [
  | none ↦ none
  | some (none, s) ↦ some (none, s)
  | some (some len, s) ↦ sized max_len len s
]
