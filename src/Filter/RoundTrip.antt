-- ===== src/Filter/RoundTrip.antt =====
-- The two filters, one behind the other: what `output_filter` puts on the wire and what `input_filter`
-- of the peer makes of it.
use syrup.Base.{ℕ, ◌<◌, ◌≡◌, sym, ◌∙◌, ap, List, ◌++◌, length, drop, drop-append, IsBytes}
use mathlib.Core.List.{append_assoc}
use syrup.Crypt.{EncryptionContext, DecryptionContext}
use syrup.Filter.{EvBuffer, le16, Server, handed_on, input_filter, output_filter}
use syrup.Filter.Frames.{frame, IsReady, Passes, output_filter-frame, input_filter-frame}

append_cancel : (xs ys zs : List ℕ) → xs ++ ys ≡ xs ++ zs → ys ≡ zs
append_cancel xs ys zs e = sym (drop-append xs ys) ∙ ap (drop (length xs)) e ∙ drop-append xs zs

module _ (ev : EvBuffer) (server : Server) (uninitialised : ℕ) (e : EncryptionContext)
    (d : DecryptionContext) (buf rest more : List ℕ) where
  open ev use {Buf, contents}

  -- The output filter takes a packet of less than 65536 bytes from behind its size and leaves the
  -- rest. The input filter of the other side, with the same vector, takes what that added to its
  -- destination, hands on the packet, leaves what more has arrived, and has the vector of the
  -- output filter again.
  pub input_filter-output_filter :
      (src dst wire dst' : Buf)
      → e.iv ≡ d.iv
      → IsBytes buf
      → IsReady e
      → length buf < 65536
      → contents src ≡ le16 (length buf) ++ (buf ++ rest)
      → contents dst ++ contents wire
        ≡ contents (output_filter ev uninitialised e src dst).dst ++ more
      → let sent = output_filter ev uninitialised e src dst in
        let got = input_filter ev server d wire dst' in
        ((out : List ℕ) × Passes ev rest dst out sent)
        × Passes ev more dst' (handed_on server (length buf) buf) got
        × (got.context.iv ≡ sent.context.iv)
  input_filter-output_filter src dst wire dst' same bytes ready fits holds arrived =
      let (passed, renewed) = output_filter-frame ev uninitialised e src dst buf rest holds fits in
      let on_wire : contents wire ≡ frame e buf ++ more =
        append_cancel (contents dst) (contents wire) (frame e buf ++ more) (
          arrived
          ∙ ap (λ (bs : List ℕ). bs ++ more) passed.dst_out
          ∙ append_assoc (contents dst) (frame e buf) more) in
      let (taken, equal) =
        input_filter-frame ev server e d buf same bytes ready fits wire dst' more on_wire in
      ((frame e buf, passed), taken, equal ∙ ap (λ c. c.iv) (sym renewed))
