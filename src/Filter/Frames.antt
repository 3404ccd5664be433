-- ===== src/Filter/Frames.antt =====
-- What `output_filter` writes, `input_filter` reads back, and a part of it is left alone.
use syrup.Base.{
  ℕ, ◌+◌, ◌<◌, ◌≡◌, refl, sym, ◌∙◌, ap, true, List, [], ◌++◌, arith, length, take, drop, ◌==◌,
  IsBytes, length-append, length-take, take-append, drop-append, take-append_of_length,
  drop-append_of_length, take-take, dec_lt,
}
use mathlib.Core.List.{append_assoc, append-nil}
use mathlib.Core.Path.{subst}
use syrup.Crypt.{
  EncryptionContext, DecryptionContext, encryption_context_encrypt, encryption_context_header,
  decryption_context_decrypt,
}
use syrup.Crypt.Header.{IsIv, le32, header_size, header_fields, length-header}
use syrup.Crypt.RoundTrip.{decrypt-encrypt, length-encrypt}
use syrup.Filter.{
  EvBuffer, ok, need_more, le16, from_le16, Server, handed_on, Filtered, input_filter,
  output_filter, take_input, take_output, need,
}

-- The bytes of one packet on the wire.
pub frame : EncryptionContext → List ℕ → List ℕ
frame e buf = encryption_context_header e (length buf) ++ (encryption_context_encrypt e buf).buf

-- What the header needs of the context.
pub record IsReady (e : EncryptionContext) : Type 0 where
  pub vector : IsIv e.iv
  pub version : e.maple_version < 65536

pub length-frame : (e : EncryptionContext) (buf : List ℕ) → length (frame e buf) ≡ 4 + length buf
unfolding frame
length-frame e buf = omega (
  arith,
  length-append (encryption_context_header e (length buf)) (encryption_context_encrypt e buf).buf,
  length-header e (length buf),
  length-encrypt e buf,
)

-- The size that stands in the first four bytes.
frame-size :
    (e : EncryptionContext) (buf rest : List ℕ)
    → IsReady e
    → length buf < 65536
    → header_size (le32 (take 4 (frame e buf ++ rest))) ≡ length buf
unfolding frame
frame-size e buf rest ready fits =
    ap (λ (bs : List ℕ). header_size (le32 bs))
      (ap (take 4) (
          append_assoc (encryption_context_header e (length buf))
            (encryption_context_encrypt e buf).buf rest)
        ∙ take-append_of_length 4 _ _ (length-header e (length buf)))
    ∙ (header_fields e (length buf) ready.vector.b₂ ready.vector.b₃ ready.version fits).0

module _ (ev : EvBuffer) where
  open ev use {Buf, contents, get_length, copyout, drain, remove, add}

  -- The outcome of a filter that takes a whole packet: `rest` is left and `out` is added.
  pub record Passes {C : Type 0} (rest : List ℕ) (dst : Buf) (out : List ℕ) (r : Filtered ev C)
      : Type 0 where
    pub result : r.result ≡ ok
    pub src : contents r.src ≡ rest
    pub dst_out : contents r.dst ≡ contents dst ++ out

  take_output-frame :
      (e : EncryptionContext) (src dst : Buf) (buf rest : List ℕ)
      → contents src ≡ le16 (length buf) ++ (buf ++ rest)
      → let r = take_output ev e src dst (length buf) in
        Passes rest dst (frame e buf) r × (r.context ≡ (encryption_context_encrypt e buf).context)
  unfolding take_output frame
  take_output-frame e src dst buf rest holds = (
    record {
      result = refl;
      src = ev.remove_rest _ _ ∙ ap (drop (length buf)) drained ∙ drop-append buf rest;
      dst_out =
          ev.add_lem dst _
          ∙ ap
              (λ (bs : List ℕ).
                contents dst
                ++ (encryption_context_header e (length buf)
                    ++ (encryption_context_encrypt e bs).buf))
              removed;
    },
    ap (λ (bs : List ℕ). (encryption_context_encrypt e bs).context) removed,
  )
    where
      drained : contents (drain src 2) ≡ buf ++ rest
      drained = ev.drain_lem src 2 ∙ ap (drop 2) holds ∙ unfold le16 in refl

      removed : (remove (drain src 2) (length buf)).0 ≡ buf
      removed = ev.remove_data _ _ ∙ ap (take (length buf)) drained ∙ take-append buf rest

  from_le16-le16 : (n : ℕ) (bs : List ℕ) → n < 65536 → from_le16 (take 2 (le16 n ++ bs)) ≡ n
  unfolding le16 from_le16
  from_le16-le16 n bs h = omega arith

  -- A packet that the server put into the buffer behind its size is taken from it, whatever follows
  -- it, and its frame is added to the destination: the header and the encrypted bytes.
  pub output_filter-frame :
      (uninitialised : ℕ) (e : EncryptionContext) (src dst : Buf) (buf rest : List ℕ)
      → contents src ≡ le16 (length buf) ++ (buf ++ rest)
      → length buf < 65536
      → let r = output_filter ev uninitialised e src dst in
        Passes rest dst (frame e buf) r × (r.context ≡ (encryption_context_encrypt e buf).context)
  output_filter-frame uninitialised e src dst buf rest holds fits =
      subst
        (λ r.
          Passes rest dst (frame e buf) r
          × (r.context ≡ (encryption_context_encrypt e buf).context))
        (sym taken) (take_output-frame e src dst buf rest holds)
    where
      copied : copyout src 2 ≡ take 2 (le16 (length buf) ++ (buf ++ rest))
      copied = ev.copyout_lem src 2 ∙ ap (take 2) holds

      two : (length (copyout src 2) == 2) ≡ true
      two = ap (λ (bs : List ℕ). length bs == 2) copied ∙ unfold le16 in refl

      size : from_le16 (copyout src 2) ≡ length buf
      size = ap from_le16 copied ∙ from_le16-le16 (length buf) (buf ++ rest) fits

      have : get_length src ≡ 2 + (length buf + length rest)
      have =
          ev.get_length_lem src
          ∙ ap length holds
          ∙ unfold le16 in omega (arith, length-append buf rest)

      taken : output_filter ev uninitialised e src dst ≡ take_output ev e src dst (length buf)
      taken = unfold output_filter in rw (two, size) (ground (arith, have))

  module _ (server : Server) (e : EncryptionContext) (d : DecryptionContext) (buf : List ℕ)
      (same : e.iv ≡ d.iv) (bytes : IsBytes buf) where
    take_input-frame :
        (src dst : Buf) (rest : List ℕ)
        → contents src ≡ frame e buf ++ rest
        → let r = take_input ev server d src dst (length buf) in
          Passes rest dst (handed_on server (length buf) buf) r
          × (r.context.iv ≡ (encryption_context_encrypt e buf).context.iv)
    unfolding take_input frame
    take_input-frame src dst rest holds = (
      record {
        result = refl;
        src =
            ev.remove_rest _ _
            ∙ ap (drop (length buf)) drained
            ∙ drop-append_of_length (length buf) sent rest (length-encrypt e buf);
        dst_out =
            ev.add_lem dst _
            ∙ ap (λ (bs : List ℕ). contents dst ++ handed_on server (length buf) bs)
                (ap (λ (bs : List ℕ). (decryption_context_decrypt d bs).buf) removed ∙ back.0);
      },
      ap (λ (bs : List ℕ). (decryption_context_decrypt d bs).context.iv) removed ∙ sym back.1,
    )
      where
        header : List ℕ
        header = encryption_context_header e (length buf)

        sent : List ℕ
        sent = (encryption_context_encrypt e buf).buf

        back :
            ((decryption_context_decrypt d sent).buf ≡ buf)
            × ((encryption_context_encrypt e buf).context.iv
                ≡ (decryption_context_decrypt d sent).context.iv)
        back = decrypt-encrypt e d buf same bytes

        drained : contents (drain src 4) ≡ sent ++ rest
        drained =
            ev.drain_lem src 4
            ∙ ap (drop 4) (holds ∙ append_assoc header sent rest)
            ∙ drop-append_of_length 4 header (sent ++ rest) (length-header e (length buf))

        removed : (remove (drain src 4) (length buf)).0 ≡ sent
        removed =
            ev.remove_data _ _
            ∙ ap (take (length buf)) drained
            ∙ take-append_of_length (length buf) sent rest (length-encrypt e buf)

    module _ (ready : IsReady e) (fits : length buf < 65536) where
      -- The packet that `output_filter` framed is read back: the filter of a peer whose vector is
      -- the same hands the packet on, leaves what follows it, and renews its vector alike.
      pub input_filter-frame :
          (src dst : Buf) (rest : List ℕ)
          → contents src ≡ frame e buf ++ rest
          → let r = input_filter ev server d src dst in
            Passes rest dst (handed_on server (length buf) buf) r
            × (r.context.iv ≡ (encryption_context_encrypt e buf).context.iv)
      input_filter-frame src dst rest holds =
          subst
            (λ r.
              Passes rest dst (handed_on server (length buf) buf) r
              × (r.context.iv ≡ (encryption_context_encrypt e buf).context.iv))
            (sym taken) (take_input-frame src dst rest holds)
        where
          size : header_size (le32 (copyout src 4)) ≡ length buf
          size =
              ap (λ (bs : List ℕ). header_size (le32 bs)) (ev.copyout_lem src 4 ∙ ap (take 4) holds)
              ∙ frame-size e buf rest ready fits

          have : get_length src ≡ 4 + (length buf + length rest)
          have =
              ev.get_length_lem src
              ∙ ap length holds
              ∙ omega (arith, length-append (frame e buf) rest, length-frame e buf)

          taken : input_filter ev server d src dst ≡ take_input ev server d src dst (length buf)
          taken = unfold input_filter in rw size (ground (arith, have))

  module _ (server : Server) (e : EncryptionContext) (d : DecryptionContext) (buf : List ℕ)
      (ready : IsReady e) (fits : length buf < 65536) where
    -- A packet of which only the first `k` bytes have arrived is left alone, whatever its size.
    pub input_filter-partial :
        (src dst : Buf) (k : ℕ)
        → contents src ≡ take k (frame e buf)
        → k < length (frame e buf)
        → let r = input_filter ev server d src dst in
          (r.result ≡ need_more) × (r.src ≡ src) × (r.dst ≡ dst) × (r.context ≡ d)
    unfolding need
    input_filter-partial src dst k holds short =
        subst (λ r. (r.result ≡ need_more) × (r.src ≡ src) × (r.dst ≡ dst) × (r.context ≡ d))
          (sym stays) (refl, refl, refl, refl)
      where
        have : get_length src ≡ k
        have =
            ev.get_length_lem src
            ∙ ap length holds
            ∙ omega (arith, length-take k (frame e buf), short)

        stays : input_filter ev server d src dst ≡ need ev d src dst
        stays = elim (dec_lt k 4) [
          | yes few ↦ unfold input_filter in ground (arith, have)
          | no enough ↦
              let size : header_size (le32 (copyout src 4)) ≡ length buf =
                ap (λ (bs : List ℕ). header_size (le32 bs))
                  (ev.copyout_lem src 4
                    ∙ ap (take 4) holds
                    ∙ take-take 4 k (frame e buf) (omega arith)
                    ∙ ap (take 4) (sym (append-nil (frame e buf))))
                ∙ frame-size e buf [] ready fits in
              unfold input_filter in rw size (ground (arith, have, short, length-frame e buf))
        ]
