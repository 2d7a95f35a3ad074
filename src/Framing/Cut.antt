-- ===== src/Framing/Cut.antt =====
-- A frame of which the stream ends too early.
use knitting_crab.Prelude.{
  ℕ, zero, suc, ◌+◌, ◌-◌, ◌%◌, ◌≤◌, ◌<◌, ◌≡◌, refl, ap, ◌∙◌, Bool-cases, false, inl, inr, ltb,
  ltb→lt, if◌then◌else◌, Option, none, some, List, [], ◌∷◌, ◌++◌, length, u32_mod, arith,
}
use knitting_crab.Framing.{
  TransportResult, sent, broke, protocol, max_message_bytes, MessageFormat, to_le_bytes,
  from_le_bytes, take, frame_of, eof, read_exact, recv_payload, recv_frame, recv_message,
}
use knitting_crab.Framing.RoundTrip.{
  from_le_bytes-to_le_bytes, read_exact-prefix, small_length, not_large,
}

read_exact-short : (n : ℕ) (xs : List ℕ) → length xs < n → read_exact n xs ≡ none
unfolding read_exact
read_exact-short zero xs h = absurd (no (length xs) h)
  where
    no : (k : ℕ) → k < 0 → ⊥
    no k p = omega arith
read_exact-short (suc n) [] h = refl
read_exact-short (suc n) (x ∷ xs) h = rw (read_exact-short n xs (omega (arith, h))) refl

length-take : (n : ℕ) (xs : List ℕ) → length (take n xs) ≤ n
length-take zero xs = omega arith
length-take (suc n) [] = omega arith
length-take (suc n) (x ∷ xs) = omega (arith, length-take n xs)

take-four :
    (n k : ℕ) (json : List ℕ)
    → take (suc (suc (suc (suc k)))) (to_le_bytes n ++ json) ≡ to_le_bytes n ++ take k json
unfolding to_le_bytes
take-four n k json = refl

length-take_less : (k : ℕ) (xs : List ℕ) → k < length xs → length (take k xs) < length xs
length-take_less k xs h = omega (arith, h, length-take k xs)

module _ {A : Type 0} (format : MessageFormat A) where
  recv_frame-cut :
      (n k : ℕ) (json : List ℕ)
      → from_le_bytes (to_le_bytes n) ≡ length json
      → length json ≤ max_message_bytes
      → k < length json
      → recv_frame format eof (some (to_le_bytes n, take k json))
        ≡ ([], broke (protocol "truncated frame"))
  unfolding recv_frame recv_payload
  recv_frame-cut n k json len small less =
      rw
        (
          len,
          not_large (length json) small,
          read_exact-short (length json) (take k json) (length-take_less k json less),
        )
        refl

  -- The result of a receiver that has seen `k` bytes of a frame and then the end.
  abbrev pub cut_after : ℕ → TransportResult (Option A)
  cut_after k = if ltb k 4 then sent none else broke (protocol "truncated frame")

  recv_message-few :
      (k : ℕ) (bytes : List ℕ) → k < 4 → recv_message format eof (take k bytes) ≡ ([], sent none)
  unfolding recv_message recv_frame
  recv_message-few k bytes few =
      ap (recv_frame format eof)
        (read_exact-short 4 (take k bytes) (omega (arith, few, length-take k bytes)))

  recv_message-more :
      (k : ℕ) (json : List ℕ)
      → length json ≤ max_message_bytes
      → k < length json
      → recv_message format eof (take (suc (suc (suc (suc k)))) (frame_of json))
        ≡ ([], broke (protocol "truncated frame"))
  unfolding recv_message frame_of
  recv_message-more k json small less =
      let n = length json % u32_mod in
      let len : from_le_bytes (to_le_bytes n) ≡ length json =
        from_le_bytes-to_le_bytes n (omega arith) ∙ small_length (length json) small in
      ap (recv_message format eof) (take-four n k json)
      ∙ ap (recv_frame format eof) (read_exact-prefix n (take k json))
      ∙ recv_frame-cut n k json len small less

  -- When a stream ends within the frame of a payload that is not too large, the receiver reports a
  -- clean end if it has seen fewer than four bytes of it, and a truncated frame if more: never a
  -- message.
  pub recv_message-take :
      (k : ℕ) (json : List ℕ)
      → length json ≤ max_message_bytes
      → k < 4 + length json
      → recv_message format eof (take k (frame_of json)) ≡ ([], cut_after k)
  recv_message-take k json small less = elim (Bool-cases (ltb k 4)) [
    | inl few ↦ rw (few) (recv_message-few k (frame_of json) (ltb→lt k 4 few))
    | inr more ↦ rw (more) (
        ap (λ j. recv_message format eof (take j (frame_of json))) (four k more)
        ∙ recv_message-more (k - 4) json small (left k (length json) more less))
  ]
    where
      four : (j : ℕ) → ltb j 4 ≡ false → j ≡ suc (suc (suc (suc (j - 4))))
      four j h = ground arith

      left : (j n : ℕ) → ltb j 4 ≡ false → j < 4 + n → j - 4 < n
      left j n h p = ground arith
