-- ===== src/Writer/Refusal.antt =====
-- Calls that need more than a memory of the writer's size: an assertion fails, or, in
-- `writer_zero`, the access leaves the memory.
use syrup.Base.{
  ℕ, ◌+◌, ◌<◌, ◌≡◌, refl, true, false, none, List, [], ◌∷◌, ◌++◌, arith, length, take, drop,
  length-append, length-drop, dec_lt, Option-cases, inl, inr,
}
use syrup.Writer.{
  le_bytes, writer_init, checked, writer_bool, writer_i8, writer_u8, writer_i16, writer_u16,
  writer_i32, writer_u32, writer_i64, writer_u64, writer_zero, writer_sized_string, Call, bool,
  zeros, sized_string, array, call, calls, build, Writer, writer_array,
}
use syrup.Writer.Encode.{
  encode, encode_all, AreReadable, writing, store-refused, checked-refused, checked-writing,
  writer_array-refused, call-writing, calls_size, length-encode_all,
}

module _ (size : ℕ) (before behind : List ℕ) (exact : size ≡ length before + length behind) where
  refused :
      (bs : List ℕ) → length behind < length bs → checked bs (writing size before behind) ≡ none
  refused bs short = checked-refused size before behind bs (omega arith)

  sized_string-refused :
      (n : ℕ) (bytes : List ℕ)
      → length behind < length (le_bytes 2 n ++ take n bytes)
      → writer_sized_string n bytes (writing size before behind) ≡ none
  unfolding writer_sized_string writer_u16
  sized_string-refused n bytes short = elim (dec_lt (length behind) (length (le_bytes 2 n))) [
    | yes h ↦ rw (writer_sized_string, refused (le_bytes 2 n) h) refl
    | no h ↦
        rw
          (
            writer_sized_string,
            checked-writing size before behind (le_bytes 2 n) (omega arith) (omega arith),
          )
          (writer_array-refused size _ _ n bytes (
            omega (
              arith,
              length-append before (le_bytes 2 n),
              length-append (le_bytes 2 n) (take n bytes),
            )))
  ]

  call-refused :
      (c : Call) → length behind < length (encode c) → call c (writing size before behind) ≡ none
  unfolding call encode writer_bool writer_i8 writer_u8 writer_i16 writer_u16 writer_i32 writer_u32
      writer_i64 writer_u64 writer_zero
  call-refused (bool true) short = refused _ short
  call-refused (bool false) short = refused _ short
  call-refused (Call.i8 x) short = refused _ short
  call-refused (Call.u8 x) short = refused _ short
  call-refused (Call.i16 x) short = refused _ short
  call-refused (Call.u16 x) short = refused _ short
  call-refused (Call.i32 x) short = refused _ short
  call-refused (Call.u32 x) short = refused _ short
  call-refused (Call.i64 x) short = refused _ short
  call-refused (Call.u64 x) short = refused _ short
  call-refused (zeros n) short = store-refused size before behind _ short
  call-refused (array n bytes) short = writer_array-refused size before behind n bytes (omega arith)
  call-refused (sized_string n bytes) short = sized_string-refused n bytes short

calls-refused :
    (size : ℕ) (cs : List Call) (before behind : List ℕ)
    → AreReadable cs
    → size ≡ length before + length behind
    → length behind < length (encode_all cs)
    → calls cs (writing size before behind) ≡ none
unfolding calls encode_all
calls-refused size [] before behind r exact short = absurd (omega arith)
calls-refused size (c ∷ cs) before behind r exact short =
    elim (dec_lt (length behind) (length (encode c))) [
      | yes h ↦ rw (calls, call-refused size before behind exact c h) refl
      | no h ↦
          rw (calls, call-writing size before behind c r.0 (omega arith) (omega arith))
            (calls-refused size cs (before ++ encode c) (drop (length (encode c)) behind) r.1
              (omega
                (arith, length-append before (encode c), length-drop (length (encode c)) behind))
              (omega (
                arith,
                length-append (encode c) (encode_all cs),
                length-drop (length (encode c)) behind,
              )))
    ]

-- In a memory of exactly the size given to `writer_init`, calls that need more bytes do not return:
-- nothing is ever written past the buffer.
pub build-refused :
    (size : ℕ) (cs : List Call) (memory : List ℕ)
    → AreReadable cs
    → length memory ≡ size
    → size < calls_size cs
    → build size cs memory ≡ none
unfolding build writer_init
build-refused size cs memory r exact short =
    rw
      (
        build,
        calls-refused size cs [] memory r (omega arith) (omega (arith, length-encode_all cs r)),
      )
      refl

-- A call that reads behind its array lets no message return.
fault-refuses : (cs ds : List Call) (w : Writer) → calls (cs ++ (array 1 [] ∷ ds)) w ≡ none
unfolding calls call writer_array
fault-refuses [] ds w = refl
fault-refuses (c ∷ cs) ds w = elim (Option-cases (call c w)) [
  | inl e ↦ rw (calls, e) refl
  | inr (v, e) ↦ rw (calls, e) (fault-refuses cs ds v)
]

pub build-fault :
    (size : ℕ) (cs ds : List Call) (memory : List ℕ)
    → build size (cs ++ (array 1 [] ∷ ds)) memory ≡ none
unfolding build
build-fault size cs ds memory = rw (build, fault-refuses cs ds (writer_init size memory)) refl
