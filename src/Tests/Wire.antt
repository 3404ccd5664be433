-- ===== src/Tests/Wire.antt =====
-- Two packets of a connection, its headers and its filters, with lists as libevent's buffers.
use mathlib.Core.Option
use syrup.Base.{
  ℕ, ◌<◌, ◌≡◌, refl, List, [], ◌∷◌, ◌++◌, bit_xor, arith, length, take, drop, get_elem?, IsBytes,
}
use syrup.Crypt.{EncryptionContext, DecryptionContext}
use syrup.Crypt.Stream.{Iv, crypt}
use syrup.Crypt.Stream.Keystream.{key_byte, crypt-key_byte}
use syrup.Crypt.RoundTrip.{encrypt_all, decrypt_all, decrypt_all-encrypt_all}
use syrup.Crypt.Header.{IsIv}
use syrup.Filter.{EvBuffer, need_more, channel, login, handed_on, input_filter, output_filter, le16}
use syrup.Filter.Frames.{frame, length-frame, IsReady, Passes, input_filter-partial}
use syrup.Filter.RoundTrip.{input_filter-output_filter}

abbrev vector : Iv
vector = record { b₀ = 1; b₁ = 2; b₂ = 3; b₃ = 200 }

vector-IsIv : IsIv vector
vector-IsIv = record { b₀ = omega arith; b₁ = omega arith; b₂ = omega arith; b₃ = omega arith }

abbrev sender : EncryptionContext
sender = record { iv = vector; maple_version = 21248 }

abbrev receiver : DecryptionContext
receiver = record { iv = vector }

abbrev hello : List ℕ
hello = 13 ∷ 0 ∷ 255 ∷ []

hello-IsBytes : IsBytes hello
hello-IsBytes = (omega arith, (omega arith, (omega arith, tt)))

decrypt_all-encrypt_all_example :
    decrypt_all receiver (encrypt_all sender (hello ∷ hello ∷ [])) ≡ hello ∷ hello ∷ []
decrypt_all-encrypt_all_example =
    decrypt_all-encrypt_all sender receiver (hello ∷ hello ∷ []) refl
      (hello-IsBytes, (hello-IsBytes, tt))

crypt-key_byte_example :
    get_elem? (crypt vector hello).buf 2
    ≡ Option.map (λ b. bit_xor b (key_byte vector 2)) (get_elem? hello 2)
crypt-key_byte_example = crypt-key_byte vector hello 2

-- A buffer is the list of its bytes.
abbrev list_buffer : EvBuffer
list_buffer = record {
  Buf = List ℕ;
  contents = λ b. b;
  get_length = λ b. length b;
  copyout = λ b n. take n b;
  drain = λ b n. drop n b;
  remove = λ b n. (take n b, drop n b);
  add = λ b bs. b ++ bs;
  get_length_lem = λ b. refl;
  copyout_lem = λ b n. refl;
  drain_lem = λ b n. refl;
  remove_data = λ b n. refl;
  remove_rest = λ b n. refl;
  add_lem = λ b bs. refl;
}

sender-IsReady : IsReady sender
sender-IsReady = record { vector = vector-IsIv; version = omega arith }

abbrev queued : List ℕ
queued = 3 ∷ 0 ∷ 13 ∷ 0 ∷ 255 ∷ 7 ∷ []

abbrev written : List ℕ
written = (output_filter list_buffer 0 sender queued []).dst

queued-hello : queued ≡ le16 3 ++ (hello ++ (7 ∷ []))
unfolding le16
queued-hello = refl

input_filter-output_filter_example :
    ((out : List ℕ) × Passes list_buffer
        (7 ∷ [])
        []
        out
        (output_filter list_buffer 0 sender queued []))
    × Passes list_buffer
        (9 ∷ [])
        []
        (handed_on channel 3 hello)
        (input_filter list_buffer channel receiver (written ++ (9 ∷ [])) [])
    × ((input_filter list_buffer channel receiver (written ++ (9 ∷ [])) []).context.iv
        ≡ (output_filter list_buffer 0 sender queued []).context.iv)
input_filter-output_filter_example =
    input_filter-output_filter list_buffer channel 0 sender receiver hello (7 ∷ []) (9 ∷ []) queued
      [] (written ++ (9 ∷ [])) [] refl hello-IsBytes sender-IsReady (omega arith) queued-hello refl

five_are_short : 5 < length (frame sender hello)
five_are_short = omega (arith, length-frame sender hello)

input_filter-partial_example :
    ((input_filter list_buffer login receiver (take 5 (frame sender hello)) []).result ≡ need_more)
    × ((input_filter list_buffer login receiver (take 5 (frame sender hello)) []).src
        ≡ take 5 (frame sender hello))
    × ((input_filter list_buffer login receiver (take 5 (frame sender hello)) []).dst ≡ [])
    × ((input_filter list_buffer login receiver (take 5 (frame sender hello)) []).context
        ≡ receiver)
input_filter-partial_example =
    input_filter-partial list_buffer login sender receiver hello sender-IsReady (omega arith)
      (take 5 (frame sender hello)) [] 5 refl five_are_short
