-- ===== src/Writer/Encode.antt =====
-- What a sequence of calls writes: the concatenation of the calls' encodings, in front of what
-- stood behind it, if the size and the memory are large enough.
use mathlib.Core.List.{append_assoc, append-nil}
use syrup.Base.{
  ℕ, zero, suc, ◌+◌, ◌≤◌, ◌<◌, ◌≡◌, refl, sym, ap, ap₂, ◌∙◌, true, false, Option, none, some, List,
  [], ◌∷◌, ◌++◌, arith, length, take, drop, replicate, length-append, take-append, length-take,
  length-replicate, length-drop,
}
use syrup.Writer.{
  Writer, le_bytes, writer_init, store, checked, writer_bool, writer_i8, writer_u8, writer_i16,
  writer_u16, writer_i32, writer_u32, writer_i64, writer_u64, writer_zero, writer_array,
  writer_sized_string, Call, bool, zeros, sized_string, array, call, calls, build,
}

unfoldable pub encode : Call → List ℕ
encode (bool true) = 1 ∷ []
encode (bool false) = 0 ∷ []
encode (Call.i8 x) = le_bytes 1 x
encode (Call.u8 x) = le_bytes 1 x
encode (Call.i16 x) = le_bytes 2 x
encode (Call.u16 x) = le_bytes 2 x
encode (Call.i32 x) = le_bytes 4 x
encode (Call.u32 x) = le_bytes 4 x
encode (Call.i64 x) = le_bytes 8 x
encode (Call.u64 x) = le_bytes 8 x
encode (zeros n) = replicate n 0
encode (sized_string n bytes) = le_bytes 2 n ++ take n bytes
encode (array n bytes) = take n bytes

unfoldable pub encode_all : List Call → List ℕ
encode_all [] = []
encode_all (c ∷ cs) = encode c ++ encode_all cs

-- The pointers that a call is given point at as many bytes as it is told.
abbrev pub IsReadable : Call → Type 0
IsReadable (sized_string n bytes) = n ≤ length bytes
IsReadable (array n bytes) = n ≤ length bytes
IsReadable _ = Unit {0}

abbrev pub AreReadable : List Call → Type 0
AreReadable [] = Unit {0}
AreReadable (c ∷ cs) = IsReadable c × AreReadable cs

-- A writer that has written `before`, with `behind` in the memory behind it.
abbrev pub writing : ℕ → List ℕ → List ℕ → Writer
writing size before behind = record { size = size; pos = length before; packet = before ++ behind }

drop-append-add {ℓ} :
    {A : Type ℓ} (n : ℕ) (xs ys : List A) → drop (length xs + n) (xs ++ ys) ≡ drop n ys
drop-append-add n [] ys = ap (λ (m : ℕ). drop m ys) (omega arith)
drop-append-add n (x ∷ xs) ys =
    ap (λ (m : ℕ). drop m (x ∷ (xs ++ ys)))
      (let e : length (x ∷ xs) + n ≡ suc (length xs + n) = omega arith in e)
    ∙ drop-append-add n xs ys

drop-nil {ℓ} : {A : Type ℓ} (n : ℕ) → drop n (let xs : List A = [] in xs) ≡ []
drop-nil zero = refl
drop-nil (suc n) = refl

drop-drop {ℓ} : {A : Type ℓ} (m n : ℕ) (xs : List A) → drop m (drop n xs) ≡ drop (n + m) xs
drop-drop m zero xs = ap (λ (k : ℕ). drop k xs) (omega arith)
drop-drop m (suc n) [] = drop-nil m ∙ sym (drop-nil (suc n + m))
drop-drop m (suc n) (x ∷ xs) =
    drop-drop m n xs
    ∙ ap (λ (k : ℕ). drop k (x ∷ xs)) (let e : suc (n + m) ≡ suc n + m = omega arith in e)

store-writing :
    (size : ℕ) (before behind bs : List ℕ)
    → length bs ≤ length behind
    → store bs (writing size before behind)
      ≡ some (writing size (before ++ bs) (drop (length bs) behind))
unfolding store
store-writing size before behind bs fits = ground (
  arith,
  length-append before behind,
  length-append before bs,
  take-append before behind,
  drop-append-add (length bs) before behind,
  append_assoc before bs (drop (length bs) behind),
)

pub store-refused :
    (size : ℕ) (before behind bs : List ℕ)
    → length behind < length bs
    → store bs (writing size before behind) ≡ none
unfolding store
store-refused size before behind bs short = ground (arith, length-append before behind)

pub checked-writing :
    (size : ℕ) (before behind bs : List ℕ)
    → length before + length bs ≤ size
    → length bs ≤ length behind
    → checked bs (writing size before behind)
      ≡ some (writing size (before ++ bs) (drop (length bs) behind))
unfolding checked
checked-writing size before behind bs room fits =
    ground (arith, store-writing size before behind bs)

pub checked-refused :
    (size : ℕ) (before behind bs : List ℕ)
    → size < length before + length bs
    → checked bs (writing size before behind) ≡ none
unfolding checked
checked-refused size before behind bs short = ground arith

writer_array-writing :
    (size : ℕ) (before behind : List ℕ) (n : ℕ) (bytes : List ℕ)
    → n ≤ length bytes
    → length before + length (take n bytes) ≤ size
    → length (take n bytes) ≤ length behind
    → writer_array n bytes (writing size before behind)
      ≡ some (writing size (before ++ take n bytes) (drop (length (take n bytes)) behind))
unfolding writer_array
writer_array-writing size before behind n bytes readable room fits =
    ground (arith, checked-writing size before behind (take n bytes))

pub writer_array-refused :
    (size : ℕ) (before behind : List ℕ) (n : ℕ) (bytes : List ℕ)
    → size < length before + length (take n bytes)
    → writer_array n bytes (writing size before behind) ≡ none
unfolding writer_array
writer_array-refused size before behind n bytes short =
    ground (arith, checked-refused size before behind (take n bytes))

writing-append :
    (size : ℕ) (before behind xs ys : List ℕ)
    → writing size (before ++ xs ++ ys) (drop (length ys) (drop (length xs) behind))
      ≡ writing size (before ++ (xs ++ ys)) (drop (length (xs ++ ys)) behind)
writing-append size before behind xs ys = ap₂ (writing size) (append_assoc before xs ys) (
    drop-drop (length ys) (length xs) behind
    ∙ ap (λ (k : ℕ). drop k behind) (sym (length-append xs ys)))

-- One write after another.
writing_two :
    (size : ℕ) (before behind xs ys : List ℕ) (first second : Writer → Option Writer)
    → first (writing size before behind)
      ≡ some (writing size (before ++ xs) (drop (length xs) behind))
    → second (writing size (before ++ xs) (drop (length xs) behind))
      ≡ some (writing size (before ++ xs ++ ys) (drop (length ys) (drop (length xs) behind)))
    → elim (first (writing size before behind)) [ none ↦ none | some v ↦ second v ]
      ≡ some (writing size (before ++ (xs ++ ys)) (drop (length (xs ++ ys)) behind))
writing_two size before behind xs ys first second h k =
    rw (h) (k ∙ ap some (writing-append size before behind xs ys))

room_for_two :
    (size : ℕ) (before behind xs ys : List ℕ)
    → length before + length (xs ++ ys) ≤ size
    → length (xs ++ ys) ≤ length behind
    → (length before + length xs ≤ size)
      × (length xs ≤ length behind)
      × (length (before ++ xs) + length ys ≤ size)
      × (length ys ≤ length (drop (length xs) behind))
room_for_two size before behind xs ys h k =
    omega (arith, length-append before xs, length-append xs ys, length-drop (length xs) behind)

sized_string-writing :
    (size : ℕ) (before behind : List ℕ) (n : ℕ) (bytes : List ℕ)
    → n ≤ length bytes
    → length before + length (le_bytes 2 n ++ take n bytes) ≤ size
    → length (le_bytes 2 n ++ take n bytes) ≤ length behind
    → writer_sized_string n bytes (writing size before behind)
      ≡ some (
          writing size
            (before ++ (le_bytes 2 n ++ take n bytes))
            (drop (length (le_bytes 2 n ++ take n bytes)) behind))
unfolding writer_sized_string writer_u16
sized_string-writing size before behind n bytes readable room fits =
    let (r₁, f₁, r₂, f₂) =
      room_for_two size before behind (le_bytes 2 n) (take n bytes) room fits in
    writing_two size before behind (le_bytes 2 n) (take n bytes) (checked (le_bytes 2 n))
      (writer_array n bytes) (checked-writing size before behind (le_bytes 2 n) r₁ f₁)
      (writer_array-writing size _ _ n bytes readable r₂ f₂)

pub call-writing :
    (size : ℕ) (before behind : List ℕ) (c : Call)
    → IsReadable c
    → length before + length (encode c) ≤ size
    → length (encode c) ≤ length behind
    → call c (writing size before behind)
      ≡ some (writing size (before ++ encode c) (drop (length (encode c)) behind))
unfolding call encode writer_bool writer_i8 writer_u8 writer_i16 writer_u16 writer_i32 writer_u32
    writer_i64 writer_u64 writer_zero writer_sized_string
call-writing size before behind (bool true) r room fits =
    checked-writing size before behind _ room fits
call-writing size before behind (bool false) r room fits =
    checked-writing size before behind _ room fits
call-writing size before behind (Call.i8 x) r room fits =
    checked-writing size before behind _ room fits
call-writing size before behind (Call.u8 x) r room fits =
    checked-writing size before behind _ room fits
call-writing size before behind (Call.i16 x) r room fits =
    checked-writing size before behind _ room fits
call-writing size before behind (Call.u16 x) r room fits =
    checked-writing size before behind _ room fits
call-writing size before behind (Call.i32 x) r room fits =
    checked-writing size before behind _ room fits
call-writing size before behind (Call.u32 x) r room fits =
    checked-writing size before behind _ room fits
call-writing size before behind (Call.i64 x) r room fits =
    checked-writing size before behind _ room fits
call-writing size before behind (Call.u64 x) r room fits =
    checked-writing size before behind _ room fits
call-writing size before behind (zeros n) r room fits = store-writing size before behind _ fits
call-writing size before behind (array n bytes) r room fits =
    writer_array-writing size before behind n bytes r room fits
call-writing size before behind (sized_string n bytes) r room fits =
    sized_string-writing size before behind n bytes r room fits

-- The calls of a builder, at the size and in the memory that they need, write their encodings.
pub calls-encode :
    (size : ℕ) (cs : List Call) (before behind : List ℕ)
    → AreReadable cs
    → length before + length (encode_all cs) ≤ size
    → length (encode_all cs) ≤ length behind
    → calls cs (writing size before behind)
      ≡ some (writing size (before ++ encode_all cs) (drop (length (encode_all cs)) behind))
unfolding encode_all calls
calls-encode size [] before behind r room fits =
    ap (λ w. some (writing size w behind)) (sym (append-nil before))
calls-encode size (c ∷ cs) before behind r room fits =
    let (r₁, f₁, r₂, f₂) = room_for_two size before behind (encode c) (encode_all cs) room fits in
    writing_two size before behind (encode c) (encode_all cs) (call c) (calls cs)
      (call-writing size before behind c r.0 r₁ f₁)
      (calls-encode size cs (before ++ encode c) (drop (length (encode c)) behind) r.1 r₂ f₂)

-- How many bytes a call writes.
abbrev pub call_size : Call → ℕ
call_size (bool b) = 1
call_size (Call.i8 x) = 1
call_size (Call.u8 x) = 1
call_size (Call.i16 x) = 2
call_size (Call.u16 x) = 2
call_size (Call.i32 x) = 4
call_size (Call.u32 x) = 4
call_size (Call.i64 x) = 8
call_size (Call.u64 x) = 8
call_size (zeros n) = n
call_size (sized_string n bytes) = 2 + n
call_size (array n bytes) = n

abbrev pub calls_size : List Call → ℕ
calls_size [] = 0
calls_size (c ∷ cs) = call_size c + calls_size cs

length-encode : (c : Call) → IsReadable c → length (encode c) ≡ call_size c
unfolding encode le_bytes
length-encode (bool true) r = refl
length-encode (bool false) r = refl
length-encode (Call.i8 x) r = refl
length-encode (Call.u8 x) r = refl
length-encode (Call.i16 x) r = refl
length-encode (Call.u16 x) r = refl
length-encode (Call.i32 x) r = refl
length-encode (Call.u32 x) r = refl
length-encode (Call.i64 x) r = refl
length-encode (Call.u64 x) r = refl
length-encode (zeros n) r = length-replicate n 0
length-encode (array n bytes) r = omega (arith, length-take n bytes)
length-encode (sized_string n bytes) r = omega (arith, length-take n bytes)

pub length-encode_all : (cs : List Call) → AreReadable cs → length (encode_all cs) ≡ calls_size cs
unfolding encode_all
length-encode_all [] r = refl
length-encode_all (c ∷ cs) r =
    omega (
      arith,
      length-append (encode c) (encode_all cs),
      length-encode c r.0,
      length-encode_all cs r.1,
    )

-- A builder's calls, with room for them in the size and in the memory, write their encodings at
-- the start of the memory and leave the rest as it was.
pub build-encode :
    (size : ℕ) (cs : List Call) (memory : List ℕ)
    → AreReadable cs
    → calls_size cs ≤ size
    → calls_size cs ≤ length memory
    → build size cs memory ≡ some (calls_size cs, encode_all cs ++ drop (calls_size cs) memory)
unfolding build writer_init
build-encode size cs memory r room fits =
    let n = length-encode_all cs r in
    rw (build, calls-encode size cs [] memory r (omega (arith, n)) (omega (arith, n)), n) refl

pub calls_size-append : (cs ds : List Call) → calls_size (cs ++ ds) ≡ calls_size cs + calls_size ds
calls_size-append [] ds = omega arith
calls_size-append (c ∷ cs) ds = omega (arith, calls_size-append cs ds)

pub append-AreReadable :
    (cs ds : List Call) → AreReadable cs → AreReadable ds → AreReadable (cs ++ ds)
append-AreReadable [] ds h k = k
append-AreReadable (c ∷ cs) ds h k = (h.0, append-AreReadable cs ds h.1 k)
