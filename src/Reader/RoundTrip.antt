-- ===== src/Reader/RoundTrip.antt =====
-- The reads on a packet that holds the bytes, and reading what the writer wrote.
use mathlib.Core.List.{append_assoc, append-nil}
use native.Mathlib.Nat.{pow-suc}
use syrup.Base.{
  ℕ, zero, suc, ◌+◌, ◌/◌, ◌^◌, ◌≤◌, ◌<◌, ◌≡◌, refl, ap, true, none, some, List, [], ◌∷◌, ◌++◌,
  arith, length, take, drop, length-append, drop-append, take-append_of_length,
}
use syrup.Reader.{
  Reader, reader_init, reader_end, Read, from_bytes, load, integer, reader_array, reader_u8,
  reader_u16, reader_u32, sized, reader_sized_string,
}
use syrup.Writer.{le_bytes, Call, sized_string, array, build}
use syrup.Writer.Encode.{
  encode, encode_all, AreReadable, calls_size, build-encode, length-encode_all,
}

-- A packet below 2 ^ 63 bytes, read up to the end of `before`.
abbrev pub reading : ℕ → List ℕ → List ℕ → Reader
reading size before behind = record { size = size; pos = length before; packet = before ++ behind }

load-reading :
    (size : ℕ) (before bs behind : List ℕ) (n : ℕ)
    → length bs ≡ n
    → length before + n ≤ size
    → size < 9223372036854775808
    → load n (reading size before (bs ++ behind))
      ≡ some (some bs, reading size (before ++ bs) behind)
unfolding load
load-reading size before bs behind n len room small = ground (
  arith,
  length-append before (bs ++ behind),
  length-append bs behind,
  length-append before bs,
  drop-append before (bs ++ behind),
  take-append_of_length n bs behind,
  append_assoc before bs behind,
)

length-le_bytes : (w x : ℕ) → length (le_bytes w x) ≡ w
unfolding le_bytes
length-le_bytes zero x = refl
length-le_bytes (suc w) x = ap suc (length-le_bytes w (x / 256))

from_bytes-le_bytes : (w x : ℕ) → x < 256 ^ w → from_bytes (le_bytes w x) ≡ x
unfolding le_bytes from_bytes
from_bytes-le_bytes zero x h = omega arith
from_bytes-le_bytes (suc w) x h = ground (arith, pow-suc 256 w, from_bytes-le_bytes w (x / 256))

integer-reading :
    (size : ℕ) (before behind : List ℕ) (w x : ℕ)
    → x < 256 ^ w
    → length before + w ≤ size
    → size < 9223372036854775808
    → integer w (reading size before (le_bytes w x ++ behind))
      ≡ some (some x, reading size (before ++ le_bytes w x) behind)
unfolding integer
integer-reading size before behind w x h room small = ground (
  arith,
  length-le_bytes w x,
  load-reading size before (le_bytes w x) behind w,
  from_bytes-le_bytes w x h,
)

array-reading :
    (size : ℕ) (before bs behind : List ℕ)
    → length before + length bs ≤ size
    → size < 9223372036854775808
    → reader_array (length bs) (reading size before (bs ++ behind))
      ≡ some (some bs, reading size (before ++ bs) behind)
unfolding reader_array
array-reading size before bs behind room small =
    ground (arith, load-reading size before bs behind (length bs) refl)

sized_string-reading :
    (size : ℕ) (before bs behind : List ℕ) (max_len : ℕ)
    → length bs ≤ max_len
    → length bs < 65536
    → length before + (2 + length bs) ≤ size
    → size < 9223372036854775808
    → reader_sized_string max_len (reading size before (le_bytes 2 (length bs) ++ (bs ++ behind)))
      ≡ some (some bs, reading size (before ++ (le_bytes 2 (length bs) ++ bs)) behind)
unfolding reader_sized_string sized reader_u16
sized_string-reading size before bs behind max_len fits short room small = ground (
  arith,
  integer-reading size before (bs ++ behind) 2 (length bs),
  length-append before (le_bytes 2 (length bs)),
  length-le_bytes 2 (length bs),
  load-reading size (before ++ le_bytes 2 (length bs)) bs behind (length bs),
  append_assoc before (le_bytes 2 (length bs)) bs,
)

-- What a message is made of: integers, strings behind their lengths (with the reader's maximum)
-- and blocks of a length that both sides know.
pub data Field : Type 0 where
  byte half whole : ℕ → Field
  text : ℕ → List ℕ → Field
  block : List ℕ → Field

abbrev pub IsField : Field → Type 0
IsField (byte x) = x < 256
IsField (half x) = x < 65536
IsField (whole x) = x < 4294967296
IsField (text max_len bytes) = (length bytes ≤ max_len) × (length bytes < 65536)
IsField (block bytes) = length bytes < 65536

abbrev pub AreFields : List Field → Type 0
AreFields [] = Unit {0}
AreFields (f ∷ fs) = IsField f × AreFields fs

unfoldable pub write : Field → Call
write (byte x) = Call.u8 x
write (half x) = Call.u16 x
write (whole x) = Call.u32 x
write (text max_len bytes) = sized_string (length bytes) bytes
write (block bytes) = array (length bytes) bytes

-- A read that delivers a value of a field.
abbrev pub deliver : {A B : Type 0} → (A → B) → Read A → Read B
deliver f none = none
deliver f (some (none, r)) = some (none, r)
deliver f (some (some a, r)) = some (some (f a), r)

-- The read of a field of the kind that is given; its value is not looked at.
unfoldable pub read : Field → Reader → Read Field
read (byte x) r = deliver byte (reader_u8 r)
read (half x) r = deliver half (reader_u16 r)
read (whole x) r = deliver whole (reader_u32 r)
read (text max_len bytes) r = deliver (text max_len) (reader_sized_string max_len r)
read (block bytes) r = deliver block (reader_array (length bytes) r)

take-length : (bs : List ℕ) → take (length bs) bs ≡ bs
take-length [] = refl
take-length (b ∷ bs) = ap (λ cs. b ∷ cs) (take-length bs)

read-reading :
    (f : Field) (size : ℕ) (before behind : List ℕ)
    → IsField f
    → length before + length (encode (write f)) ≤ size
    → size < 9223372036854775808
    → read f (reading size before (encode (write f) ++ behind))
      ≡ some (some f, reading size (before ++ encode (write f)) behind)
unfolding read write encode reader_u8 reader_u16 reader_u32 le_bytes
read-reading (byte x) size before behind h room small =
    rw (read, integer-reading size before behind 1 x h room small) refl
read-reading (half x) size before behind h room small =
    rw (read, integer-reading size before behind 2 x h room small) refl
read-reading (whole x) size before behind h room small =
    rw (read, integer-reading size before behind 4 x h room small) refl
read-reading (text max_len bytes) size before behind h room small = ground (
  arith,
  take-length bytes,
  length-append (le_bytes 2 (length bytes)) bytes,
  length-le_bytes 2 (length bytes),
  append_assoc (le_bytes 2 (length bytes)) bytes behind,
  sized_string-reading size before bytes behind max_len,
)
read-reading (block bytes) size before behind h room small =
    ground (arith, take-length bytes, array-reading size before bytes behind)

unfoldable pub write_all : List Field → List Call
write_all [] = []
write_all (f ∷ fs) = write f ∷ write_all fs

unfoldable pub read_all : List Field → Reader → Read (List Field)
read_all [] r = some (some [], r)
read_all (f ∷ fs) r = elim (read f r) [
  | none ↦ none
  | some (none, s) ↦ some (none, s)
  | some (some g, s) ↦ deliver (λ gs. g ∷ gs) (read_all fs s)
]

read_all-reading :
    (fs : List Field) (size : ℕ) (before behind : List ℕ)
    → AreFields fs
    → length before + length (encode_all (write_all fs)) ≤ size
    → size < 9223372036854775808
    → read_all fs (reading size before (encode_all (write_all fs) ++ behind))
      ≡ some (some fs, reading size (before ++ encode_all (write_all fs)) behind)
unfolding read_all write_all encode_all
read_all-reading [] size before behind h room small = rw (append-nil before) refl
read_all-reading (f ∷ fs) size before behind h room small =
    let first = encode (write f) in
    let rest = encode_all (write_all fs) in
    rw
      (
        read_all,
        append_assoc first rest behind,
        read-reading f size before (rest ++ behind) h.0 (omega (arith, length-append first rest))
            small,
        read_all-reading fs size (before ++ first) behind h.1
            (omega (arith, length-append first rest, length-append before first)) small,
        append_assoc before first rest,
      )
      refl

write_all-AreReadable : (fs : List Field) → AreReadable (write_all fs)
unfolding write write_all
write_all-AreReadable [] = tt
write_all-AreReadable (byte x ∷ fs) = (tt, write_all-AreReadable fs)
write_all-AreReadable (half x ∷ fs) = (tt, write_all-AreReadable fs)
write_all-AreReadable (whole x ∷ fs) = (tt, write_all-AreReadable fs)
write_all-AreReadable (text m bytes ∷ fs) = (omega arith, write_all-AreReadable fs)
write_all-AreReadable (block bytes ∷ fs) = (omega arith, write_all-AreReadable fs)

-- A message that fits a buffer below 2 ^ 63 bytes is built there, and a reader over the bytes built
-- reads back the same message and is then at its end.
pub read_all-build :
    (fs : List Field) (size : ℕ) (memory : List ℕ)
    → AreFields fs
    → calls_size (write_all fs) ≤ size
    → size ≤ length memory
    → size < 9223372036854775808
    → (m : List ℕ) × (r : Reader) × (build size (write_all fs) memory
        ≡ some (calls_size (write_all fs), m))
      × (read_all fs (reader_init (calls_size (write_all fs)) m) ≡ some (some fs, r))
      × (reader_end r ≡ true)
unfolding reader_init reader_end
read_all-build fs size memory h room fits small =
    let cs = write_all fs in
    let readable = write_all-AreReadable fs in
    let n = length-encode_all cs readable in
    let left = drop (calls_size cs) memory in
    (
      encode_all cs ++ left,
      reading (calls_size cs) (encode_all cs) left,
      build-encode size cs memory readable room (omega arith),
      read_all-reading fs (calls_size cs) [] left h (omega (arith, n)) (omega arith),
      ground (arith, n),
    )
