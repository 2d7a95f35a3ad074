-- ===== src/Framing/Examples.antt =====
-- Two messages of a byte over a format that writes a byte as itself.
use knitting_crab.Prelude.{ℕ, ◌≡◌, refl, ap, subst, arith, none, some, List, [], ◌∷◌, ◌++◌, map}
use knitting_crab.Framing.{
  TransportResult, sent, broke, MessageFormat, serialize, take, frame_of, eof, recv_message,
}
use knitting_crab.Framing.RoundTrip.{Fits, send_all, receive, receive-send_all}
use knitting_crab.Framing.Cut.{cut_after, recv_message-take}

abbrev read_byte : List ℕ → TransportResult ℕ
read_byte (b ∷ []) = sent b
read_byte bytes = broke (serialize "expected one byte")

abbrev payload_of : TransportResult (List ℕ) → List ℕ
payload_of (sent json) = json
payload_of (broke e) = []

abbrev byte_format : MessageFormat ℕ
byte_format = record {
  to_vec = λ m. sent (m ∷ []);
  from_slice = read_byte;
  reads = λ m json e. subst (λ j. read_byte j ≡ sent m) (ap payload_of e) refl;
}

byte-Fits : (m : ℕ) → Fits byte_format m
byte-Fits m = (m ∷ [], refl, omega arith)

receive-send_all_example :
    receive byte_format 3 eof (send_all byte_format (7 ∷ 9 ∷ []) [])
    ≡ map (λ m. sent (some m)) (7 ∷ 9 ∷ []) ++ sent none ∷ []
receive-send_all_example =
    receive-send_all byte_format (7 ∷ 9 ∷ []) (byte-Fits 7, (byte-Fits 9, tt))

recv_message-take_example :
    recv_message byte_format eof (take 2 (frame_of (7 ∷ []))) ≡ ([], cut_after byte_format 2)
recv_message-take_example = recv_message-take byte_format 2 (7 ∷ []) (omega arith) (omega arith)
