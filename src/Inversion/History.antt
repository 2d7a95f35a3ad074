-- ===== src/Inversion/History.antt =====
-- The history of the detector, against a reference that keeps the holders as a function of the lock.
use knitting_crab.Prelude.{
  ℕ, ◌≡◌, refl, ap, ◌∙◌, Option, none, some, List, [], ◌∷◌, ◌++◌, String, same_text, text_lookup,
  text_lookup-insert, text_lookup-remove, if◌then◌else◌, ltb, Bool-cases, inl, inr, true, false,
}
use knitting_crab.Core.Task.{TaskId}
use knitting_crab.Core.Priority.{Priority, as_u8, priority_lt}
use knitting_crab.Inversion.{
  InversionRecord, LockOwnership, PriorityInversionDetector, new, record_lock_acquire,
  record_lock_release, inversion_of, push_inversion, record_task_blocks,
}

pub data Call : Type 0 where
  acquires : String → TaskId → Priority → ℕ → Call
  releases : String → Call
  blocks : TaskId → Priority → String → ℕ → Call

unfoldable pub step : Call → PriorityInversionDetector → PriorityInversionDetector
unfolding record_lock_acquire record_lock_release record_task_blocks
step (acquires lock task priority now) d = record_lock_acquire lock task priority now d
step (releases lock) d = (record_lock_release lock d).0
step (blocks waiter priority lock now) d = (record_task_blocks waiter priority lock now d).0

unfoldable pub run : List Call → PriorityInversionDetector → PriorityInversionDetector
unfolding step
run [] d = d
run (c ∷ cs) d = run cs (step c d)

-- Who holds which lock.
abbrev pub Owners : Type 0
Owners = String → Option LockOwnership

unfoldable pub owners_after : Call → Owners → Owners
owners_after (acquires lock task priority now) owners key =
    if same_text lock key
    then some (record { holder_id = task; holder_priority = priority; acquired_at = now })
    else owners key
owners_after (releases lock) owners key = if same_text lock key then none else owners key
owners_after (blocks waiter priority lock now) owners key = owners key

abbrev pub cons_some : Option InversionRecord → List InversionRecord → List InversionRecord
cons_some none rs = rs
cons_some (some r) rs = r ∷ rs

-- A wait for a lock that nobody holds finds nothing, nor does one whose holder has a level that is
-- not below that of the waiting task.
unfoldable pub wait_finds :
    TaskId → Priority → String → ℕ → Option LockOwnership → Option InversionRecord
unfolding as_u8
wait_finds waiter priority lock now none = none
wait_finds waiter priority lock now (some owner) =
    elim (ltb (as_u8 owner.holder_priority) (as_u8 priority)) [
      | false ↦ none
      | true ↦ some (record {
        waiter_id = waiter;
        waiter_priority = priority;
        blocker_id = owner.holder_id;
        blocker_priority = owner.holder_priority;
        lock_id = lock;
        detected_at = now;
        duration_ms = 0;
      })
    ]

wait_finds-inversion_of :
    (waiter : TaskId) (priority : Priority) (lock : String) (now : ℕ) (o : Option LockOwnership)
    → inversion_of waiter priority lock now o ≡ wait_finds waiter priority lock now o
unfolding inversion_of wait_finds priority_lt
wait_finds-inversion_of waiter priority lock now none = refl
wait_finds-inversion_of waiter priority lock now (some owner) =
    elim (Bool-cases (ltb (as_u8 owner.holder_priority) (as_u8 priority))) [
      | inl lower ↦ rw (lower, wait_finds) refl
      | inr other ↦ rw (other, wait_finds) refl
    ]

abbrev pub found_by : Call → Owners → Option InversionRecord
found_by (blocks waiter priority lock now) owners =
    wait_finds waiter priority lock now (owners lock)
found_by (acquires lock task priority now) owners = none
found_by (releases lock) owners = none

-- The inversions of a sequence of calls, in its order.
unfoldable pub inversions : List Call → Owners → List InversionRecord
unfolding owners_after
inversions [] owners = []
inversions (c ∷ cs) owners = cons_some (found_by c owners) (inversions cs (owners_after c owners))

abbrev pub Agrees : PriorityInversionDetector → Owners → Type 0
Agrees d owners = (key : String) → text_lookup key d.lock_ownership ≡ owners key

step-Agrees :
    (c : Call) (d : PriorityInversionDetector) (owners : Owners)
    → Agrees d owners
    → Agrees (step c d) (owners_after c owners)
unfolding step owners_after record_lock_acquire record_lock_release record_task_blocks
step-Agrees (acquires lock task priority now) d owners h key =
    let owner : LockOwnership = record {
      holder_id = task;
      holder_priority = priority;
      acquired_at = now;
    } in
    text_lookup-insert lock key owner d.lock_ownership
    ∙ ap (λ o. if same_text lock key then some owner else o) (h key)
step-Agrees (releases lock) d owners h key =
    text_lookup-remove lock key d.lock_ownership
    ∙ ap (λ o. if same_text lock key then none else o) (h key)
step-Agrees (blocks waiter priority lock now) d owners h key = h key

push_inversion-append :
    (o : Option InversionRecord) (history rs : List InversionRecord)
    → push_inversion o history ++ rs ≡ history ++ cons_some o rs
push_inversion-append none history rs = refl
push_inversion-append (some r) history rs = append_assoc history
  where
    append_assoc : (xs : List InversionRecord) → (xs ++ r ∷ []) ++ rs ≡ xs ++ r ∷ rs
    append_assoc [] = refl
    append_assoc (x ∷ xs) = ap (λ l. x ∷ l) (append_assoc xs)

step-history :
    (c : Call) (d : PriorityInversionDetector) (owners : Owners)
    → Agrees d owners
    → (step c d).inversion_history ≡ push_inversion (found_by c owners) d.inversion_history
unfolding step record_lock_acquire record_lock_release record_task_blocks
step-history (acquires lock task priority now) d owners h = refl
step-history (releases lock) d owners h = refl
step-history (blocks waiter priority lock now) d owners h =
    ap (λ o. push_inversion (inversion_of waiter priority lock now o) d.inversion_history) (h lock)
    ∙ ap (λ r. push_inversion r d.inversion_history)
        (wait_finds-inversion_of waiter priority lock now (owners lock))

run-history :
    (cs : List Call) (d : PriorityInversionDetector) (owners : Owners)
    → Agrees d owners
    → (run cs d).inversion_history ≡ d.inversion_history ++ inversions cs owners
unfolding run inversions
run-history [] d owners h = append_nil d.inversion_history
  where
    append_nil : (xs : List InversionRecord) → xs ≡ xs ++ []
    append_nil [] = refl
    append_nil (x ∷ xs) = ap (λ l. x ∷ l) (append_nil xs)
run-history (c ∷ cs) d owners h =
    run-history cs (step c d) (owners_after c owners) (step-Agrees c d owners h)
    ∙ ap (λ l. l ++ inversions cs (owners_after c owners)) (step-history c d owners h)
    ∙ push_inversion-append (found_by c owners) d.inversion_history
        (inversions cs (owners_after c owners))

-- After any acquisitions, releases and waits on a new detector, its history holds exactly the waits
-- for a lock that a task of lower priority held at that time, in their order.
pub run-inversions : (cs : List Call) → (run cs new).inversion_history ≡ inversions cs (λ key. none)
unfolding new text_lookup
run-inversions cs = run-history cs new (λ key. none) nothing_held
  where
    nothing_held : Agrees new (λ key. none)
    nothing_held key = refl
