-- ===== src/Reader/Bounds.antt =====
-- The reads on any bytes that were received: no access leaves the packet.
use native.Mathlib.Nat.{pow-suc}
use syrup.Base.{
  ℕ, zero, suc, ◌+◌, ◌^◌, ◌≤◌, ◌<◌, ◌≡◌, ◌∙◌, refl, Option, none, some, List, [], ◌∷◌, arith,
  length, take, drop, length-take, dec_lt, IsBytes, take-IsBytes, drop-IsBytes,
}
use syrup.Reader.{
  Reader, Read, from_bytes, load, integer, reader_array, reader_u8, reader_u16, reader_u32, sized,
  reader_sized_string,
}
use syrup.Reader.RoundTrip.{
  Field, byte, half, whole, text, block, IsField, AreFields, deliver, read, read_all,
}

-- A reader inside of its packet, which is of bytes and shorter than 2 ^ 63.
pub record IsWithin (r : Reader) : Type 0 where
  pub inside : r.pos ≤ r.size
  pub backed : r.size ≤ length r.packet
  pub small : r.size < 9223372036854775808
  pub of_bytes : IsBytes r.packet

-- A read that returns, with or without a value, a reader inside of the same packet.
Returns : {A : Type 0} → Reader → Read A → Type 0
Returns {A = A} r res =
    (o : Option A) × (s : Reader) × (res ≡ some (o, s))
    × (s.packet ≡ r.packet)
    × (s.size ≡ r.size)
    × IsWithin s

pow_pos : (w : ℕ) → 0 < 256 ^ w
pow_pos zero = omega arith
pow_pos (suc w) = omega (arith, pow-suc 256 w, pow_pos w)

from_bytes-lt : (w : ℕ) (bs : List ℕ) → IsBytes bs → length bs ≤ w → from_bytes bs < 256 ^ w
unfolding from_bytes
from_bytes-lt w [] h l = pow_pos w
from_bytes-lt zero (b ∷ bs) h l = absurd (omega arith)
from_bytes-lt (suc w) (b ∷ bs) h l = ground (arith, pow-suc 256 w, from_bytes-lt w bs h.1)

advance : ℕ → Reader → Reader
advance n r = record r { pos = r.pos + n }

bytes_at : ℕ → Reader → List ℕ
bytes_at n r = take n (drop r.pos r.packet)

load_room :
    (n : ℕ) (r : Reader)
    → IsWithin r
    → r.pos + n ≤ r.size
    → load n r ≡ some (some (bytes_at n r), advance n r)
unfolding load advance bytes_at
load_room n r within room = ground arith

advance-IsWithin : (n : ℕ) (r : Reader) → IsWithin r → r.pos + n ≤ r.size → IsWithin (advance n r)
unfolding advance
advance-IsWithin n r within room = record {
  inside = room;
  backed = within.backed;
  small = within.small;
  of_bytes = within.of_bytes;
}

-- With room a read delivers, and without it nothing moves.
Reads : {A : Type 0} → ℕ → A → Reader → Read A → Type 0
Reads n a r res =
    (r.pos + n ≤ r.size → res ≡ some (some a, advance n r))
    × (r.size < r.pos + n → res ≡ some (none, r))

Reads-Returns :
    {A : Type 0} (n : ℕ) (a : A) (r : Reader) (res : Read A)
    → IsWithin r
    → Reads n a r res
    → Returns r res
unfolding Reads Returns advance
Reads-Returns n a r res within h = elim (dec_lt r.size (r.pos + n)) [
  | yes short ↦ (none, r, h.1 short, refl, refl, within)
  | no room ↦
      let fits : r.pos + n ≤ r.size = omega arith in
      (some a, advance n r, h.0 fits, refl, refl, advance-IsWithin n r within fits)
]

integer-Reads :
    (w : ℕ) (r : Reader) → w < 9 → IsWithin r → Reads w (from_bytes (bytes_at w r)) r (integer w r)
unfolding integer Reads
integer-Reads w r h within = ground (arith, load_room w r within)

array-Reads :
    (n : ℕ) (r : Reader)
    → n < 9223372036854775808
    → IsWithin r
    → Reads n (bytes_at n r) r (reader_array n r)
unfolding reader_array Reads
array-Reads n r h within = ground (arith, load_room n r within)

sized-Returns :
    (max_len len : ℕ) (r : Reader) → len < 65536 → IsWithin r → Returns r (sized max_len len r)
unfolding sized Reads Returns
sized-Returns max_len len r h within = elim (dec_lt max_len len) [
  | yes long ↦ (none, r, ground arith, refl, refl, within)
  | no fits ↦
      Reads-Returns len (bytes_at len r) r (sized max_len len r) within
        (λ room. ground (arith, load_room len r within), λ short. ground arith)
]

u16-lt : (r : Reader) → IsWithin r → from_bytes (bytes_at 2 r) < 65536
unfolding bytes_at
u16-lt r within =
    from_bytes-lt 2 (take 2 (drop r.pos r.packet))
      (take-IsBytes 2 (drop r.pos r.packet) (drop-IsBytes r.pos r.packet within.of_bytes))
      (omega (arith, length-take 2 (drop r.pos r.packet)))

sized_string-Returns :
    (max_len : ℕ) (r : Reader) → IsWithin r → Returns r (reader_sized_string max_len r)
unfolding reader_sized_string reader_u16 Returns advance Reads
sized_string-Returns max_len r within = elim (dec_lt r.size (r.pos + 2)) [
  | yes short ↦ (
    none,
    r,
    rw (reader_sized_string, (integer-Reads 2 r (omega arith) within).1 short) refl,
    refl,
    refl,
    within,
  )
  | no room ↦
      let fits : r.pos + 2 ≤ r.size = omega arith in
      rw (reader_sized_string, (integer-Reads 2 r (omega arith) within).0 fits)
        (sized-Returns max_len (from_bytes (bytes_at 2 r)) (advance 2 r) (u16-lt r within)
          (advance-IsWithin 2 r within fits))
]

deliver-Returns :
    {A B : Type 0} (f : A → B) (r : Reader) (res : Read A)
    → Returns r res
    → Returns r (deliver f res)
unfolding Returns
deliver-Returns f r res (none, s, e, p, z, w) = (none, s, rw (e) refl, p, z, w)
deliver-Returns f r res (some a, s, e, p, z, w) = (some (f a), s, rw (e) refl, p, z, w)

read-Returns : (f : Field) (r : Reader) → IsField f → IsWithin r → Returns r (read f r)
unfolding read reader_u8 reader_u16 reader_u32
read-Returns (byte x) r h within =
    deliver-Returns byte r _ (Reads-Returns 1 _ r _ within (integer-Reads 1 r (omega arith) within))
read-Returns (half x) r h within =
    deliver-Returns half r _ (Reads-Returns 2 _ r _ within (integer-Reads 2 r (omega arith) within))
read-Returns (whole x) r h within =
    deliver-Returns whole r _
      (Reads-Returns 4 _ r _ within (integer-Reads 4 r (omega arith) within))
read-Returns (text m bytes) r h within =
    deliver-Returns (text m) r _ (sized_string-Returns m r within)
read-Returns (block bytes) r h within =
    deliver-Returns block r _ (
      Reads-Returns (length bytes) _ r _ within (array-Reads (length bytes) r (omega arith) within))

read_all-cons :
    (f : Field) (fs : List Field) (r : Reader)
    → Returns r (read f r)
    → ((s : Reader) → IsWithin s → Returns s (read_all fs s))
    → Returns r (read_all (f ∷ fs) r)
unfolding read_all Returns
read_all-cons f fs r (none, s, e, p, z, w) rest = (none, s, rw (read_all, e) refl, p, z, w)
read_all-cons f fs r (some g, s, e, p, z, w) rest =
    let (o, t, d, q, y, v) = deliver-Returns (λ gs. g ∷ gs) s (read_all fs s) (rest s w) in
    (o, t, rw (read_all, e) d, q ∙ p, y ∙ z, v)

-- Whatever bytes were received, a sequence of reads that starts inside of the packet returns, and
-- the reader that it leaves is inside of the same packet: no access is out of the memory.
pub read_all-IsWithin :
    (fs : List Field) (r : Reader)
    → AreFields fs
    → IsWithin r
    → (o : Option (List Field)) × (s : Reader) × (read_all fs r ≡ some (o, s))
      × (s.packet ≡ r.packet)
      × (s.size ≡ r.size)
      × IsWithin s
unfolding read_all Returns
read_all-IsWithin [] r h within = (some [], r, refl, refl, refl, within)
read_all-IsWithin (f ∷ fs) r h within =
    read_all-cons f fs r (read-Returns f r h.0 within) (λ s w. read_all-IsWithin fs s h.1 w)
