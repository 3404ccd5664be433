-- ===== src/Packet.antt =====
-- src/packet.c: the builders of the packets. Each is the size that it gives to `writer_init` and the
-- calls of the writer that it makes, in their order; integers are bit patterns. An array that the
-- caller passes is a function of the index, and the clock's values are arguments.
pub mod Login
pub mod Objects
pub mod Player
pub mod Notice
pub mod Fixed
pub mod Text
pub mod StatChange
pub mod Items
pub mod Fights
pub mod Characters
use syrup.Base.{
  ℕ, zero, suc, Bool, true, false, Option, List, [], ◌++◌, length, ◌≡◌, ◌≤◌, ◌∙◌, refl, sym, arith,
  drop, leb, ◌&&◌, some, none, ap,
}
use syrup.Writer.{Call, build, bool, zeros}
use syrup.Writer.Encode.{encode_all, AreReadable, IsReadable, calls_size, build-encode}

pub record Packet : Type 0 where
  pub size : ℕ
  pub calls : List Call

-- The builder's run over the caller's memory: `writer.pos`, and the memory after it.
unfoldable pub send : Packet → List ℕ → Option (ℕ × List ℕ)
send p memory = build p.size p.calls memory

-- `for (i = from; i < from + n; i++)`.
unfoldable pub for_from : (from n : ℕ) → (ℕ → List Call) → List Call
for_from from zero body = []
for_from from (suc n) body = body from ++ for_from (suc from) n body

-- The calls under an `if` without an `else`.
abbrev pub when : Bool → List Call → List Call
when true cs = cs
when false cs = []

pub send-encode :
    (p : Packet) (memory : List ℕ)
    → AreReadable p.calls
    → calls_size p.calls ≤ p.size
    → calls_size p.calls ≤ length memory
    → send p memory
      ≡ some (calls_size p.calls, encode_all p.calls ++ drop (calls_size p.calls) memory)
unfolding send
send-encode p memory r room fits = build-encode p.size p.calls memory r room fits
