-- ===== src/Framing.antt =====
-- crates/transport/src/framing.rs: messages over a stream of bytes, each behind its length. The
-- format of the payload, which is that of `serde_json`, is an interface.
pub mod RoundTrip
pub mod Cut
mod Examples
use knitting_crab.Prelude.{
  ℕ, zero, suc, ◌≡◌, ◌+◌, ◌*◌, ◌/◌, ◌%◌, Bool, true, false, Option, none, some, List, [], ◌∷◌, ◌++◌,
  String, length, ltb, if◌then◌else◌, u32_mod,
}

-- crates/transport/src/error.rs
pub data TransportError : Type 0 where
  io serialize protocol : String → TransportError
  connection_closed : TransportError
  message_too_large : ℕ → TransportError

pub data TransportResult (A : Type 0) : Type 0 where
  sent : A → TransportResult A
  broke : TransportError → TransportResult A

abbrev pub max_message_bytes : ℕ
max_message_bytes = 16 * 1024 * 1024

-- What the code relies on: a text that a message is written as is read as that message.
pub record MessageFormat (A : Type 0) : Type 0 where
  pub to_vec : A → TransportResult (List ℕ)
  pub from_slice : List ℕ → TransportResult A
  pub reads : (m : A) (json : List ℕ) → to_vec m ≡ sent json → from_slice json ≡ sent m

unfoldable pub to_le_bytes : ℕ → List ℕ
to_le_bytes n = n % 256 ∷ n / 256 % 256 ∷ n / 65536 % 256 ∷ n / 16777216 % 256 ∷ []

-- Of four bytes.
unfoldable pub from_le_bytes : List ℕ → ℕ
from_le_bytes [] = 0
from_le_bytes (b ∷ bs) = b + 256 * from_le_bytes bs

-- How `write_all` ends: with everything written, or with an error after some bytes.
pub data Write : Type 0 where
  whole : Write
  part : ℕ → String → Write

abbrev pub take : ℕ → List ℕ → List ℕ
take zero xs = []
take (suc n) [] = []
take (suc n) (x ∷ xs) = x ∷ take n xs

-- The bytes on the wire, and the result.
unfoldable pub write_all : Write → List ℕ → List ℕ → List ℕ × TransportResult (Unit {0})
write_all whole frame wire = (wire ++ frame, sent tt)
write_all (part n e) frame wire = (wire ++ take n frame, broke (io e))

unfoldable pub frame_of : List ℕ → List ℕ
unfolding to_le_bytes
frame_of json = to_le_bytes (length json % u32_mod) ++ json

unfoldable pub send_json :
    Write → TransportResult (List ℕ) → List ℕ → List ℕ × TransportResult (Unit {0})
unfolding write_all frame_of
send_json w (broke e) wire = (wire, broke e)
send_json w (sent json) wire =
    if ltb max_message_bytes (length json)
    then (wire, broke (message_too_large (length json)))
    else write_all w (frame_of json) wire

-- How the stream goes on when its bytes are used up.
pub data Ending : Type 0 where
  eof : Ending
  fails : String → Ending

-- The first `n` bytes and the rest, if there are as many.
unfoldable pub read_exact : ℕ → List ℕ → Option (List ℕ × List ℕ)
read_exact zero bytes = some ([], bytes)
read_exact (suc n) [] = none
read_exact (suc n) (b ∷ bytes) = elim (read_exact n bytes) [
  | none ↦ none
  | some (first, rest) ↦ some (b ∷ first, rest)
]

abbrev pub cut_prefix : {A : Type 0} → Ending → TransportResult (Option A)
cut_prefix eof = sent none
cut_prefix (fails e) = broke (io e)

abbrev pub cut_payload : {A : Type 0} → Ending → TransportResult (Option A)
cut_payload eof = broke (protocol "truncated frame")
cut_payload (fails e) = broke (io e)

abbrev pub some_message : {A : Type 0} → TransportResult A → TransportResult (Option A)
some_message (sent m) = sent (some m)
some_message (broke e) = broke e

module _ {A : Type 0} (format : MessageFormat A) where
  unfoldable pub send_message : Write → A → List ℕ → List ℕ × TransportResult (Unit {0})
  unfolding send_json
  send_message w m wire = send_json w (format.to_vec m) wire

  -- What is left of the bytes, and the message.
  unfoldable pub recv_payload :
      Ending → Option (List ℕ × List ℕ) → List ℕ × TransportResult (Option A)
  recv_payload end none = ([], cut_payload end)
  recv_payload end (some (payload, rest)) = (rest, some_message (format.from_slice payload))

  unfoldable pub recv_frame :
      Ending → Option (List ℕ × List ℕ) → List ℕ × TransportResult (Option A)
  unfolding recv_payload read_exact from_le_bytes
  recv_frame end none = ([], cut_prefix end)
  recv_frame end (some (len_bytes, rest)) =
      let len = from_le_bytes len_bytes in
      if ltb max_message_bytes len
      then (rest, broke (message_too_large len))
      else recv_payload end (read_exact len rest)

  unfoldable pub recv_message : Ending → List ℕ → List ℕ × TransportResult (Option A)
  unfolding recv_frame read_exact
  recv_message end bytes = recv_frame end (read_exact 4 bytes)
