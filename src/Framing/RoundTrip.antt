-- ===== src/Framing/RoundTrip.antt =====
-- Messages from one end of a stream to the other.
use knitting_crab.Prelude.{
  ℕ, zero, suc, ◌%◌, ◌≤◌, ◌<◌, ◌≡◌, refl, sym, ap, ◌∙◌, false, Option, none, some, List, [], ◌∷◌,
  ◌++◌, map, All, length, ltb, u32_mod, arith,
}
use knitting_crab.Framing.{
  TransportResult, sent, max_message_bytes, MessageFormat, to_le_bytes, from_le_bytes, whole,
  write_all, frame_of, send_json, Ending, eof, read_exact, send_message, recv_payload, recv_frame,
  recv_message, some_message,
}

pub from_le_bytes-to_le_bytes : (n : ℕ) → n < u32_mod → from_le_bytes (to_le_bytes n) ≡ n
unfolding from_le_bytes to_le_bytes
from_le_bytes-to_le_bytes n h = omega (arith, h)

pub read_exact-append : (xs ys : List ℕ) → read_exact (length xs) (xs ++ ys) ≡ some (xs, ys)
unfolding read_exact
read_exact-append [] ys = refl
read_exact-append (x ∷ xs) ys = rw (read_exact-append xs ys) refl

append_assoc : (xs ys zs : List ℕ) → (xs ++ ys) ++ zs ≡ xs ++ (ys ++ zs)
append_assoc [] ys zs = refl
append_assoc (x ∷ xs) ys zs = ap (λ l. x ∷ l) (append_assoc xs ys zs)

-- The prefix of a frame.
pub read_exact-prefix :
    (n : ℕ) (rest : List ℕ) → read_exact 4 (to_le_bytes n ++ rest) ≡ some (to_le_bytes n, rest)
unfolding read_exact to_le_bytes
read_exact-prefix n rest = refl

pub small_length : (n : ℕ) → n ≤ max_message_bytes → n % u32_mod ≡ n
small_length n h = omega (arith, h)

pub not_large : (n : ℕ) → n ≤ max_message_bytes → ltb max_message_bytes n ≡ false
not_large n h = ground arith

module _ {A : Type 0} (format : MessageFormat A) where
  -- A frame of the length that it claims, and what follows it.
  pub recv_frame-of :
      (end : Ending) (n : ℕ) (json tail : List ℕ)
      → from_le_bytes (to_le_bytes n) ≡ length json
      → length json ≤ max_message_bytes
      → recv_frame format end (some (to_le_bytes n, json ++ tail))
        ≡ (tail, some_message (format.from_slice json))
  unfolding recv_frame recv_payload
  recv_frame-of end n json tail h small =
      rw (h, not_large (length json) small, read_exact-append json tail) refl

  pub recv_message-frame_of :
      (end : Ending) (json tail : List ℕ)
      → length json ≤ max_message_bytes
      → recv_message format end (frame_of json ++ tail)
        ≡ (tail, some_message (format.from_slice json))
  unfolding recv_message frame_of
  recv_message-frame_of end json tail small =
      let n = length json % u32_mod in
      let len : from_le_bytes (to_le_bytes n) ≡ length json =
        from_le_bytes-to_le_bytes n (omega arith) ∙ small_length (length json) small in
      ap (recv_message format end) (append_assoc (to_le_bytes n) json tail)
      ∙ ap (recv_frame format end) (read_exact-prefix n (json ++ tail))
      ∙ recv_frame-of end n json tail len small

  -- The message can be written, in a payload that is not too large.
  abbrev pub Fits : A → Type 0
  Fits m = (json : List ℕ) × (format.to_vec m ≡ sent json) × (length json ≤ max_message_bytes)

  -- The wire after the messages, each sent whole, and how the sending went.
  unfoldable pub send_all : List A → List ℕ → List ℕ
  unfolding send_message
  send_all [] wire = wire
  send_all (m ∷ ms) wire = send_all ms (send_message format whole m wire).0

  -- The results of so many calls.
  unfoldable pub receive : ℕ → Ending → List ℕ → List (TransportResult (Option A))
  unfolding recv_message
  receive zero end bytes = []
  receive (suc n) end bytes = let r = recv_message format end bytes in r.1 ∷ receive n end r.0

  send_message-frame_of :
      (m : A) (json wire : List ℕ)
      → format.to_vec m ≡ sent json
      → length json ≤ max_message_bytes
      → (send_message format whole m wire).0 ≡ wire ++ frame_of json
  unfolding send_message send_json write_all
  send_message-frame_of m json wire e small = rw (e, not_large (length json) small) refl

  append_nil : (xs : List ℕ) → xs ++ [] ≡ xs
  append_nil [] = refl
  append_nil (x ∷ xs) = ap (λ l. x ∷ l) (append_nil xs)

  receive-cons :
      (n : ℕ) (end : Ending) (bytes : List ℕ) (r : List ℕ × TransportResult (Option A))
      → recv_message format end bytes ≡ r
      → receive (suc n) end bytes ≡ r.1 ∷ receive n end r.0
  unfolding receive
  receive-cons n end bytes r h = ap (λ q. q.1 ∷ receive n end q.0) h

  receive-frame_of :
      (n : ℕ) (end : Ending) (m : A) (json tail : List ℕ)
      → format.to_vec m ≡ sent json
      → length json ≤ max_message_bytes
      → receive (suc n) end (frame_of json ++ tail) ≡ sent (some m) ∷ receive n end tail
  receive-frame_of n end m json tail e small =
      receive-cons n end (frame_of json ++ tail) (tail, sent (some m))
        (recv_message-frame_of end json tail small
          ∙ ap (λ r. (tail, some_message r)) (format.reads m json e))

  receive-nil : receive 1 eof [] ≡ sent none ∷ []
  unfolding receive
  receive-nil = refl

  -- The frames of the messages, on any wire.
  send_all-append :
      (ms : List A) (wire : List ℕ)
      → All Fits ms
      → (frames : List ℕ) × (send_all ms wire ≡ wire ++ frames)
        × (receive (suc (length ms)) eof frames ≡ map (λ m. sent (some m)) ms ++ sent none ∷ [])
  unfolding send_all
  send_all-append [] wire fits = ([], sym (append_nil wire), receive-nil)
  send_all-append (m ∷ ms) wire ((json, e, small), fits) =
      let (frames, s, r) = send_all-append ms (wire ++ frame_of json) fits in
      (
        frame_of json ++ frames,
        ap (send_all ms) (send_message-frame_of m json wire e small)
            ∙ s
            ∙ append_assoc wire (frame_of json) frames,
        receive-frame_of (suc (length ms)) eof m json frames e small
            ∙ ap (λ l. sent (some m) ∷ l) r,
      )

  -- Messages that can be written and are not too large, sent one after the other on a new stream, each
  -- whole: after that stream has ended, the other side receives them in their order, and then the
  -- clean end.
  pub receive-send_all :
      (ms : List A)
      → All Fits ms
      → receive (suc (length ms)) eof (send_all ms [])
        ≡ map (λ m. sent (some m)) ms ++ sent none ∷ []
  receive-send_all ms fits =
      let (frames, s, r) = send_all-append ms [] fits in ap (receive (suc (length ms)) eof) s ∙ r
