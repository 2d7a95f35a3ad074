-- ===== src/Events/Memory/Latest.antt =====
-- What the two buffers hold after any calls.
use knitting_crab.Prelude.{
  ℕ, zero, suc, ◌+◌, ◌-◌, ◌≤◌, ◌≡◌, refl, sym, ap, ◌∙◌, true, false, List, [], ◌∷◌, ◌++◌, length,
  length-append, ltb, Bool-cases, inl, inr, arith,
}
use knitting_crab.Events.{LogLine, TaskEvent}
use knitting_crab.Events.Memory.{MemoryEventLog, new, evict, emit_event, emit_log}

-- A call of the sink, with the clock's reading at it.
pub data Entry : Type 0 where
  reports : ℕ → TaskEvent → Entry
  prints : LogLine → Entry

unfoldable pub emit_all : List Entry → MemoryEventLog → MemoryEventLog
unfolding emit_event emit_log
emit_all [] log = log
emit_all (reports now event ∷ es) log = emit_all es (emit_event now event log)
emit_all (prints line ∷ es) log = emit_all es (emit_log line log)

abbrev pub reported : List Entry → List (ℕ × TaskEvent)
reported [] = []
reported (reports now event ∷ es) = (now, event) ∷ reported es
reported (prints line ∷ es) = reported es

abbrev pub printed : List Entry → List LogLine
printed [] = []
printed (reports now event ∷ es) = printed es
printed (prints line ∷ es) = line ∷ printed es

module _ {ℓ} {A : Type ℓ} where
  abbrev pub drop : ℕ → List A → List A
  drop zero xs = xs
  drop (suc n) [] = []
  drop (suc n) (x ∷ xs) = drop n xs

  -- The last `max` elements.
  abbrev pub latest : ℕ → List A → List A
  latest max xs = drop (length xs - max) xs

  append_nil : (xs : List A) → xs ++ [] ≡ xs
  append_nil [] = refl
  append_nil (x ∷ xs) = ap (λ ys. x ∷ ys) (append_nil xs)

  append_assoc : (xs ys zs : List A) → (xs ++ ys) ++ zs ≡ xs ++ (ys ++ zs)
  append_assoc [] ys zs = refl
  append_assoc (x ∷ xs) ys zs = ap (λ l. x ∷ l) (append_assoc xs ys zs)

  drop-all : (n : ℕ) (xs : List A) → n ≡ zero → drop n xs ≡ xs
  drop-all n xs h = rw (h) refl

  drop-suc : (n m : ℕ) (x : A) (xs : List A) → n ≡ suc m → drop n (x ∷ xs) ≡ drop m xs
  drop-suc n m x xs h = rw (h) refl

  evict-latest : (max : ℕ) (xs : List A) → evict max xs ≡ latest max xs
  unfolding evict
  evict-latest max [] = sym (drop-all (0 - max) [] (omega arith))
  evict-latest max (x ∷ xs) = elim (Bool-cases (ltb max (length (x ∷ xs)))) [
    | inl over ↦ rw (over) (
        evict-latest max xs
        ∙ sym (drop-suc (suc (length xs) - max) (length xs - max) x xs (less max (length xs) over)))
    | inr fits ↦
        rw (fits) (sym (drop-all (suc (length xs) - max) (x ∷ xs) (none_over max (length xs) fits)))
  ]
    where
      less : (m n : ℕ) → ltb m (suc n) ≡ true → suc n - m ≡ suc (n - m)
      less m n h = ground arith

      none_over : (m n : ℕ) → ltb m (suc n) ≡ false → suc n - m ≡ zero
      none_over m n h = ground arith

  -- What is dropped once stays dropped.
  drop-append : (n : ℕ) (xs ys : List A) → n ≤ length xs → drop n (xs ++ ys) ≡ drop n xs ++ ys
  drop-append zero xs ys h = refl
  drop-append (suc n) [] ys h = absurd (no n h)
    where
      no : (k : ℕ) → suc k ≤ 0 → ⊥
      no k p = omega arith
  drop-append (suc n) (x ∷ xs) ys h = drop-append n xs ys (omega arith)

  drop-nil : (n : ℕ) → drop n [] ≡ []
  drop-nil zero = refl
  drop-nil (suc n) = refl

  length-drop : (n : ℕ) (xs : List A) → n ≤ length xs → length (drop n xs) ≡ length xs - n
  length-drop zero xs h = omega arith
  length-drop (suc n) [] h = omega arith
  length-drop (suc n) (x ∷ xs) h = omega (arith, length-drop n xs (omega arith))

  drop-drop : (n m : ℕ) (xs : List A) → drop m (drop n xs) ≡ drop (n + m) xs
  drop-drop zero m xs = ap (λ k. drop k xs) (sum m)
    where
      sum : (k : ℕ) → k ≡ 0 + k
      sum k = omega arith
  drop-drop (suc n) m [] = drop-nil m ∙ sym (drop-nil (suc n + m))
  drop-drop (suc n) m (x ∷ xs) =
      drop-drop n m xs ∙ sym (drop-suc (suc n + m) (n + m) x xs (omega arith))

  latest-drop :
      (max n : ℕ) (xs : List A) → n ≤ length xs - max → latest max (drop n xs) ≡ latest max xs
  latest-drop max n xs h =
      drop-drop n (length (drop n xs) - max) xs
      ∙ ap (λ k. drop k xs)
          (sum (length xs) (length (drop n xs)) h (length-drop n xs (omega (arith, h))))
    where
      sum : (a b : ℕ) → n ≤ a - max → b ≡ a - n → n + (b - max) ≡ a - max
      sum a b p e = omega arith

  latest-append :
      (max : ℕ) (xs ys : List A) → latest max (latest max xs ++ ys) ≡ latest max (xs ++ ys)
  latest-append max xs ys =
      ap (latest max) (sym (drop-append (length xs - max) xs ys (omega arith)))
      ∙ latest-drop max (length xs - max) (xs ++ ys) (omega (arith, length-append xs ys))

-- The buffer of events after more calls.
events-from :
    (es : List Entry) (log : MemoryEventLog) (past : List (ℕ × TaskEvent))
    → log.events ≡ latest log.max_events past
    → (emit_all es log).events ≡ latest log.max_events (past ++ reported es)
unfolding emit_all emit_event
events-from [] log past h = h ∙ ap (latest log.max_events) (sym (append_nil past))
events-from (reports now event ∷ es) log past h =
    events-from es (emit_event now event log) (past ++ (now, event) ∷ []) (
      evict-latest log.max_events (log.events ++ (now, event) ∷ [])
      ∙ ap (λ xs. latest log.max_events (xs ++ (now, event) ∷ [])) h
      ∙ latest-append log.max_events past ((now, event) ∷ []))
    ∙ ap (latest log.max_events) (append_assoc past ((now, event) ∷ []) (reported es))
events-from (prints line ∷ es) log past h = events-from es (emit_log line log) past h

logs-from :
    (es : List Entry) (log : MemoryEventLog) (past : List LogLine)
    → log.logs ≡ latest log.max_logs past
    → (emit_all es log).logs ≡ latest log.max_logs (past ++ printed es)
unfolding emit_all emit_log
logs-from [] log past h = h ∙ ap (latest log.max_logs) (sym (append_nil past))
logs-from (reports now event ∷ es) log past h = logs-from es (emit_event now event log) past h
logs-from (prints line ∷ es) log past h =
    logs-from es (emit_log line log) (past ++ line ∷ []) (
      evict-latest log.max_logs (log.logs ++ line ∷ [])
      ∙ ap (λ xs. latest log.max_logs (xs ++ line ∷ [])) h
      ∙ latest-append log.max_logs past (line ∷ []))
    ∙ ap (latest log.max_logs) (append_assoc past (line ∷ []) (printed es))

-- After any calls of a new event log, interleaved in any way, its events are the last `max_events`
-- events reported and its logs the last `max_logs` lines printed, each in the order of the calls.
pub emit_all-latest :
    (es : List Entry) (max_events max_logs : ℕ)
    → ((emit_all es (new max_events max_logs)).events ≡ latest max_events (reported es))
      × ((emit_all es (new max_events max_logs)).logs ≡ latest max_logs (printed es))
unfolding new
emit_all-latest es max_events max_logs = (
  events-from es (new max_events max_logs) [] (sym (drop-all (0 - max_events) [] (omega arith))),
  logs-from es (new max_events max_logs) [] (sym (drop-all (0 - max_logs) [] (omega arith))),
)
