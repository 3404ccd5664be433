-- ===== src/Filter.antt =====
-- The framing of encrypted packets: `input_filter` and `output_filter` of src/channel/server.c and
-- src/login/server.c. libevent's buffers are a parameter; the filters of the two servers differ in
-- what they add to the destination.
pub mod Frames
pub mod RoundTrip
use syrup.Base.{
  ℕ, ◌+◌, ◌*◌, ◌/◌, ◌%◌, ◌^◌, ◌≡◌, Bool, true, false, List, [], ◌∷◌, ◌++◌, u8, length, take, drop,
  get_or, ltb, ◌==◌, if◌then◌else◌,
}
use syrup.Crypt.{
  EncryptionContext, DecryptionContext, encryption_context_encrypt, encryption_context_header,
  decryption_context_decrypt,
}
use syrup.Crypt.Header.{le32, header_size}

-- `struct evbuffer` and the calls that the filters make: a queue of bytes, as libevent documents
-- it. A failure to allocate in `evbuffer_add`, whose result the filters ignore, is left out.
pub record EvBuffer : Type 1 where
  pub Buf : Type 0
  pub contents : Buf → List ℕ
  pub get_length : Buf → ℕ
  pub copyout : Buf → ℕ → List ℕ
  pub drain : Buf → ℕ → Buf
  pub remove : Buf → ℕ → List ℕ × Buf
  pub add : Buf → List ℕ → Buf
  pub get_length_lem : (b : Buf) → get_length b ≡ length (contents b)
  pub copyout_lem : (b : Buf) (n : ℕ) → copyout b n ≡ take n (contents b)
  pub drain_lem : (b : Buf) (n : ℕ) → contents (drain b n) ≡ drop n (contents b)
  pub remove_data : (b : Buf) (n : ℕ) → (remove b n).0 ≡ take n (contents b)
  pub remove_rest : (b : Buf) (n : ℕ) → contents (remove b n).1 ≡ drop n (contents b)
  pub add_lem : (b : Buf) (bs : List ℕ) → contents (add b bs) ≡ contents b ++ bs

pub data FilterResult : Type 0 where
  ok need_more : FilterResult

-- A `uint16_t` in memory, and back.
unfoldable pub le16 : ℕ → List ℕ
le16 n = u8 n ∷ u8 (n / 256) ∷ []

pub from_le16 : List ℕ → ℕ
from_le16 bs = get_or bs 0 0 + get_or bs 1 0 * 256

-- Which server the filter belongs to: the channel server puts the size in front of the data that
-- it hands on, the login server hands on the data alone.
pub data Server : Type 0 where
  channel login : Server

pub handed_on : Server → ℕ → List ℕ → List ℕ
handed_on channel packet_len buf = le16 packet_len ++ buf
handed_on login packet_len buf = buf

module _ (ev : EvBuffer) where
  open ev use {Buf, get_length, copyout, drain, remove, add}

  -- The result of a filter, with the buffers and the session's context that it leaves.
  pub record Filtered (C : Type 0) : Type 0 where
    pub result : FilterResult
    pub src : Buf
    pub dst : Buf
    pub context : C

  need : {C : Type 0} → C → Buf → Buf → Filtered C
  need context src dst = record { result = need_more; src = src; dst = dst; context = context }

  -- The rest of `input_filter`, once the packet is there.
  take_input : Server → DecryptionContext → Buf → Buf → ℕ → Filtered DecryptionContext
  take_input server context src dst packet_len =
      let (buf, rest) = remove (drain src 4) packet_len in
      let r = decryption_context_decrypt context buf in
      record {
        result = ok;
        src = rest;
        dst = add dst (handed_on server packet_len r.buf);
        context = r.context;
      }

  pub input_filter : Server → DecryptionContext → Buf → Buf → Filtered DecryptionContext
  input_filter server context src dst =
      let packet_len = header_size (le32 (copyout src 4)) in
      if ltb (get_length src) 4
      then need context src dst
      else if ltb (get_length src) (4 + packet_len)
      then need context src dst
      else take_input server context src dst packet_len

  -- The rest of `output_filter`, once the packet is there.
  take_output : EncryptionContext → Buf → Buf → ℕ → Filtered EncryptionContext
  take_output context src dst packet_len =
      let (buf, rest) = remove (drain src 2) packet_len in
      let r = encryption_context_encrypt context buf in
      record {
        result = ok;
        src = rest;
        dst = add dst (encryption_context_header context packet_len ++ r.buf);
        context = r.context;
      }

  -- `uninitialised` is what the variable `packet_len` holds if fewer than two bytes are there.
  pub output_filter : ℕ → EncryptionContext → Buf → Buf → Filtered EncryptionContext
  output_filter uninitialised context src dst =
      let copied = copyout src 2 in
      let packet_len = if length copied == 2 then from_le16 copied else uninitialised in
      if ltb (get_length src) (2 + packet_len)
      then need context src dst
      else take_output context src dst packet_len
