-- ===== src/Writer.antt =====
-- src/writer.c: writing a packet into a buffer. A `struct Writer` is its size, its position and
-- the memory behind `packet`; `none` is a failed assertion or an access out of the memory. An
-- integer is its bit pattern. A packet's builder is the sequence of the calls that it makes.
pub mod Encode
pub mod Refusal
use syrup.Base.{
  ℕ, zero, suc, ◌+◌, ◌-◌, ◌/◌, ◌%◌, ◌^◌, Bool, true, false, Option, none, some, List, [], ◌∷◌, ◌++◌,
  u8 as to_u8, length, take, drop, replicate, ltb, if◌then◌else◌,
}

pub record Writer : Type 0 where
  pub size : ℕ
  pub pos : ℕ
  pub packet : List ℕ

-- The little-endian bytes of an integer of `width` bytes.
unfoldable pub le_bytes : (width : ℕ) → ℕ → List ℕ
le_bytes zero x = []
le_bytes (suc width) x = to_u8 x ∷ le_bytes width (x / 256)

pub writer_init : ℕ → List ℕ → Writer
writer_init size packet = record { size = size; pos = 0; packet = packet }

-- `memcpy` of the bytes to the position, and the position's advance.
pub store : List ℕ → Writer → Option Writer
store bytes w =
    if ltb (length w.packet) (w.pos + length bytes)
    then none
    else some (record w {
      pos = w.pos + length bytes;
      packet = take w.pos w.packet ++ (bytes ++ drop (w.pos + length bytes) w.packet);
    })

-- The same behind `assert(writer->pos + n <= writer->size)`.
pub checked : List ℕ → Writer → Option Writer
unfolding store
checked bytes w = if ltb w.size (w.pos + length bytes) then none else store bytes w

-- `n` bytes that the caller's pointer points at.
abbrev pub load : ℕ → List ℕ → Option (List ℕ)
load n bytes = if ltb (length bytes) n then none else some (take n bytes)

pub writer_bool : Bool → Writer → Option Writer
writer_bool true = checked (1 ∷ [])
writer_bool false = checked (0 ∷ [])

pub writer_i8 : ℕ → Writer → Option Writer
writer_i8 x = checked (le_bytes 1 x)

pub writer_u8 : ℕ → Writer → Option Writer
writer_u8 x = checked (le_bytes 1 x)

pub writer_i16 : ℕ → Writer → Option Writer
writer_i16 x = checked (le_bytes 2 x)

pub writer_u16 : ℕ → Writer → Option Writer
writer_u16 x = checked (le_bytes 2 x)

pub writer_i32 : ℕ → Writer → Option Writer
writer_i32 x = checked (le_bytes 4 x)

pub writer_u32 : ℕ → Writer → Option Writer
writer_u32 x = checked (le_bytes 4 x)

pub writer_i64 : ℕ → Writer → Option Writer
writer_i64 x = checked (le_bytes 8 x)

pub writer_u64 : ℕ → Writer → Option Writer
writer_u64 x = checked (le_bytes 8 x)

-- No assertion stands here.
pub writer_zero : ℕ → Writer → Option Writer
writer_zero count = store (replicate count 0)

pub writer_array : ℕ → List ℕ → Writer → Option Writer
writer_array size bytes w = elim (load size bytes) [ none ↦ none | some bs ↦ checked bs w ]

pub writer_sized_string : ℕ → List ℕ → Writer → Option Writer
writer_sized_string size bytes w = elim (writer_u16 size w) [
  | none ↦ none
  | some v ↦ writer_array size bytes v
]

-- One call of a function of the writer, with its arguments.
pub data Call : Type 0 where
  bool : Bool → Call
  i8 u8 i16 u16 i32 u32 i64 u64 : ℕ → Call
  zeros : ℕ → Call
  sized_string array : ℕ → List ℕ → Call

pub call : Call → Writer → Option Writer
call (bool b) = writer_bool b
call (Call.i8 x) = writer_i8 x
call (Call.u8 x) = writer_u8 x
call (Call.i16 x) = writer_i16 x
call (Call.u16 x) = writer_u16 x
call (Call.i32 x) = writer_i32 x
call (Call.u32 x) = writer_u32 x
call (Call.i64 x) = writer_i64 x
call (Call.u64 x) = writer_u64 x
call (zeros n) = writer_zero n
call (sized_string n bytes) = writer_sized_string n bytes
call (array n bytes) = writer_array n bytes

pub calls : List Call → Writer → Option Writer
calls [] w = some w
calls (c ∷ cs) w = elim (call c w) [ none ↦ none | some v ↦ calls cs v ]

-- A builder of packet.c: the calls on a fresh writer over the caller's memory; the result is
-- `writer.pos` and the memory.
pub build : ℕ → List Call → List ℕ → Option (ℕ × List ℕ)
build size cs packet = elim (calls cs (writer_init size packet)) [
  | none ↦ none
  | some w ↦ some (w.pos, w.packet)
]
