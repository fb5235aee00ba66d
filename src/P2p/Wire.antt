-- ===== src/P2p/Wire.antt =====
-- p2p/connection.rs: the frames on the wire. bincode at messages is a parameter.
use vision_core.Prelude.{
  ℕ, ◌≡◌, ◌<◌, refl, ◌∙◌, false, Option, some, ◌++◌, length, length-append, take, drop, take-append,
  drop-append, ltb, leb, Bool-cases, inl, inr, ◌*◌, if◌then◌else◌, Result, ok, err, ◌>>=◌, ◌>>◌,
  ensure, ok_or, arith, ◌%◌,
}
use vision_core.Prelude.Text.{Text, text}
use vision_core.Prelude.Bytes.{Bytes, u32_mod, to_be_bytes, from_be_bytes}
use vision_core.Prelude.Bytes.Codec.{from_be-to_be, length-to_be_bytes}
use mathlib.Core.List.{append_assoc}
use vision_core.P2p.Protocol.{P2PMessage}

abbrev pub max_message_bytes : ℕ
max_message_bytes = 16 * 1024 * 1024

-- `bincode::serialize`, which never fails on a message, and `bincode::deserialize`
pub record Wire : Type 0 where
  pub serialize_message : P2PMessage → Bytes
  pub deserialize_message : Bytes → Option P2PMessage

-- `read_exact` of a number of bytes, with what is left of the stream.
unfoldable pub read_exact : ℕ → Bytes → Result (Bytes × Bytes) Text
read_exact n stream =
    if ltb (length stream) n then err (text "early eof") else ok (take n stream, drop n stream)

module _ ⦃wire : Wire⦄ where
  -- The bytes of `send_message`: the length in 32 bits, and the payload.
  unfoldable pub frame : P2PMessage → Bytes
  frame message =
      let payload = wire.serialize_message message in
      to_be_bytes 4 (length payload % u32_mod) ++ payload

  -- The length is checked before the body is read.
  unfoldable pub recv_message : Bytes → Result (P2PMessage × Bytes) Text
  unfolding read_exact
  recv_message stream = do
    (len_buf, body) ← read_exact 4 stream
    let len = from_be_bytes len_buf
    ensure (leb len max_message_bytes) (text "oversized message")
    (buf, rest) ← read_exact len body
    message ← ok_or (wire.deserialize_message buf) (text "deserialize")
    ok (message, rest)

  read_exact-append :
      (n : ℕ) (xs ys : Bytes) → length xs ≡ n → read_exact n (xs ++ ys) ≡ ok (xs, ys)
  unfolding read_exact
  read_exact-append n xs ys e =
      let fits : ltb (length (xs ++ ys)) n ≡ false = ground (arith, length-append xs ys, e) in
      rw fits (rw (take-append n xs ys e, drop-append n xs ys e) refl)

  -- What is read of a length `hdr` and a body that follows it.
  recv_message-header :
      (message : P2PMessage) (hdr payload rest : Bytes)
      → length hdr ≡ 4
      → from_be_bytes hdr ≡ length payload
      → wire.deserialize_message payload ≡ some message
      → recv_message (hdr ++ payload ++ rest) ≡ (
          if leb (length payload) max_message_bytes
          then ok (message, rest)
          else err (text "oversized message"))
  unfolding recv_message
  recv_message-header message hdr payload rest four len d =
      rw (append_assoc hdr payload rest, read_exact-append 4 hdr (payload ++ rest) four, len)
        (elim (Bool-cases (leb (length payload) max_message_bytes)) [
          | inl fits ↦ rw (fits, read_exact-append (length payload) payload rest refl, d) refl
          | inr large ↦ rw large refl
        ])

  -- A frame that is read back gives the message and leaves the rest of the stream where the payload
  -- is within the limit, and is refused as oversized where it is not; for a payload below 2^32 bytes
  -- that bincode gives back.
  pub recv_message-frame :
      (message : P2PMessage) (rest : Bytes)
      → wire.deserialize_message (wire.serialize_message message) ≡ some message
      → length (wire.serialize_message message) < u32_mod
      → recv_message (frame message ++ rest) ≡ (
          if leb (length (wire.serialize_message message)) max_message_bytes
          then ok (message, rest)
          else err (text "oversized message"))
  unfolding frame
  recv_message-frame message rest d fits =
      let payload = wire.serialize_message message in
      let exact : length payload % u32_mod ≡ length payload = omega (arith, fits) in
      recv_message-header message (to_be_bytes 4 (length payload % u32_mod)) payload rest
        (length-to_be_bytes 4 (length payload % u32_mod))
        (from_be-to_be 4 (length payload % u32_mod) (omega arith) ∙ exact) d
