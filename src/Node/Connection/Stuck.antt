-- ===== src/Node/Connection/Stuck.antt =====
-- The reconnection after a failed request, and its waiting time.
use knitting_crab.Prelude.{
  ℕ, ◌*◌, ◌≤◌, ◌≡◌, refl, ap, ◌∙◌, true, List, [], ◌∷◌, String, min, if◌then◌else◌, arith,
}
use knitting_crab.Coordinator.State.{CoordinatorRequest}
use knitting_crab.Node.{node_err, transport_error, Fate, unsent, NodeConnection}
use knitting_crab.Node.Connection.{
  request, exchange, reconnect_round, connect_again, request-connected,
}

-- Rounds of the reconnection, each at its clock readings and with the network's doing.
unfoldable pub reconnect_rounds : List (ℕ × ℕ × Fate) → NodeConnection × ℕ → NodeConnection × ℕ
unfolding reconnect_round
reconnect_rounds [] c = c
reconnect_rounds ((utc, now, fate) ∷ rounds) c =
    reconnect_rounds rounds (reconnect_round utc now fate c)

reconnect_rounds-connected :
    (rounds : List (ℕ × ℕ × Fate)) (k : NodeConnection) (backoff : ℕ)
    → k.is_connected ≡ true
    → reconnect_rounds rounds (k, backoff) ≡ (k, backoff)
unfolding reconnect_rounds reconnect_round
reconnect_rounds-connected [] k backoff h = refl
reconnect_rounds-connected ((utc, now, fate) ∷ rounds) k backoff h =
    ap (reconnect_rounds rounds) (
      ap
        (λ b.
          if b
          then (k, backoff)
          else if (connect_again utc now fate k).is_connected
          then (connect_again utc now fate k, 1)
          else (connect_again utc now fate k, min (backoff * 2) 30))
        h)
    ∙ reconnect_rounds-connected rounds k backoff h

-- On a connection that holds a transport: after a request that could not be sent, no rounds of the
-- reconnection change anything, and the connection still holds that transport.
pub request-unsent :
    (utc now : ℕ) (e : String) (req : CoordinatorRequest) (k : NodeConnection)
    (rounds : List (ℕ × ℕ × Fate)) (backoff : ℕ)
    → k.is_connected ≡ true
    → let r = request utc now (unsent e) req k in
      (r.1 ≡ node_err (transport_error e)) × (reconnect_rounds rounds (r.0, backoff) ≡ (k, backoff))
unfolding exchange
request-unsent utc now e req k rounds backoff h =
    let same = request-connected utc now (unsent e) req k h in
    (
      ap (λ r. r.1) same,
      ap (λ r. reconnect_rounds rounds (r.0, backoff)) same
          ∙ reconnect_rounds-connected rounds k backoff h,
    )

-- The waiting time stays between one and thirty seconds.
reconnect_round-backoff :
    (utc now : ℕ) (fate : Fate) (k : NodeConnection) (backoff : ℕ)
    → 1 ≤ backoff
    → backoff ≤ 30
    → (1 ≤ (reconnect_round utc now fate (k, backoff)).1)
      × ((reconnect_round utc now fate (k, backoff)).1 ≤ 30)
unfolding reconnect_round
reconnect_round-backoff utc now fate k backoff low high = ground arith

pub reconnect_rounds-backoff :
    (rounds : List (ℕ × ℕ × Fate)) (k : NodeConnection) (backoff : ℕ)
    → 1 ≤ backoff
    → backoff ≤ 30
    → (1 ≤ (reconnect_rounds rounds (k, backoff)).1)
      × ((reconnect_rounds rounds (k, backoff)).1 ≤ 30)
unfolding reconnect_rounds
reconnect_rounds-backoff [] k backoff low high = (low, high)
reconnect_rounds-backoff ((utc, now, fate) ∷ rounds) k backoff low high =
    let b = reconnect_round-backoff utc now fate k backoff low high in
    let next = reconnect_round utc now fate (k, backoff) in
    reconnect_rounds-backoff rounds next.0 next.1 b.0 b.1
