-- ===== src/Signal.antt =====
-- `Signal` (src/bee_rpc/utils.py): the parser's thread calls `change`, the serializer's thread `wait`.
-- `is_open` is the field `open`. A signal that does not exist does not have it, and it is never read then. `wait` looks at the field
-- and then goes to sleep on the condition; between the two another thread may run.
mod Runs
use bee_rpc_over_grpc_py.Prelude.{
  ◌≡◌, ◌⊎◌, refl, Bool, true, false, not, ◌&&◌, List, [], ◌∷◌, if◌then◌else◌, Bool-cases, inl, inr,
}

pub record Signal : Type 0 where
  pub exist : Bool
  pub is_open : Bool

abbrev pub new_signal : Bool → Signal
new_signal exist = record { exist = exist; is_open = true }

-- Where the serializer's thread is: outside of `wait`, behind the test of `wait`, or asleep.
pub data Place : Type 0 where
  running about_to_wait asleep : Place

-- `notify_all`
abbrev pub notified : Place → Place
notified running = running
notified about_to_wait = about_to_wait
notified asleep = running

unfoldable pub change : Signal × Place → Signal × Place
change (s, place) =
    if s.exist
    then (if s.is_open
        then (record s { is_open = false }, place)
        else (record s { is_open = true }, notified place))
    else (s, place)

-- The two steps of `wait`.
abbrev pub would_wait : Signal → Bool
would_wait s = s.exist && not s.is_open

unfoldable pub test : Signal × Place → Signal × Place
test (s, running) = (s, if would_wait s then about_to_wait else running)
test (s, about_to_wait) = (s, about_to_wait)
test (s, asleep) = (s, asleep)

unfoldable pub sleep : Signal × Place → Signal × Place
sleep (s, about_to_wait) = (s, asleep)
sleep (s, running) = (s, running)
sleep (s, asleep) = (s, asleep)

unfoldable pub wait : Signal × Place → Signal × Place
unfolding test sleep
wait p = sleep (test p)

-- Whole calls of the two threads, one after the other.
pub data Use : Type 0 where
  changes waits : Use

unfoldable pub perform : Signal × Place → Use → Signal × Place
unfolding change wait
perform p changes = change p
perform p waits = wait p

unfoldable pub perform_all : Signal × Place → List Use → Signal × Place
unfolding perform
perform_all p [] = p
perform_all p (u ∷ us) = perform_all (perform p u) us

-- The serializer is outside of `wait`, or asleep on a signal that is closed.
abbrev Rests : Signal × Place → Type 0
Rests (s, place) = (place ≡ running) ⊎ ((place ≡ asleep) × (s.exist ≡ true) × (s.is_open ≡ false))

change-Rests : (s : Signal) (place : Place) → Rests (s, place) → Rests (change (s, place))
unfolding change
change-Rests s place (inl out) = elim (Bool-cases s.exist) [
  | inr absent ↦ simp absent (inl out)
  | inl there ↦ elim (Bool-cases s.is_open) [
    | inl is_open ↦ simp (there, is_open) (inl out)
    | inr closed ↦ simp (there, closed, out) (inl refl)
  ]
]
change-Rests s place (inr (inside, there, closed)) = simp (there, closed, inside) (inl refl)

wait-Rests : (s : Signal) (place : Place) → Rests (s, place) → Rests (wait (s, place))
unfolding wait test sleep
wait-Rests s place (inl out) = elim (Bool-cases s.exist) [
  | inr absent ↦ simp (out, absent) (inl refl)
  | inl there ↦ elim (Bool-cases s.is_open) [
    | inl is_open ↦ simp (out, there, is_open) (inl refl)
    | inr closed ↦ simp (out, there, closed) (inr (refl, refl, refl))
  ]
]
wait-Rests s place (inr (inside, there, closed)) = simp inside (inr (refl, there, closed))

perform_all-Rests :
    (s : Signal) (place : Place) (us : List Use)
    → Rests (s, place)
    → Rests (perform_all (s, place) us)
unfolding perform_all perform
perform_all-Rests s place [] h = h
perform_all-Rests s place (changes ∷ us) h =
    perform_all-Rests (change (s, place)).0 (change (s, place)).1 us (change-Rests s place h)
perform_all-Rests s place (waits ∷ us) h =
    perform_all-Rests (wait (s, place)).0 (wait (s, place)).1 us (wait-Rests s place h)

change_wakes : (s : Signal) (place : Place) → Rests (s, place) → (change (s, place)).1 ≡ running
unfolding change
change_wakes s place (inl out) = elim (Bool-cases s.exist) [
  | inr absent ↦ simp absent out
  | inl there ↦ elim (Bool-cases s.is_open) [
    | inl is_open ↦ simp (there, is_open) out
    | inr closed ↦ simp (there, closed, out)
  ]
]
change_wakes s place (inr (inside, there, closed)) = simp (there, closed, inside)

-- Where whole calls of the two threads follow one another, in whatever order, on a new signal: the
-- serializer is outside of `wait`, or asleep on an existing signal that is closed, and behind the
-- parser's next `change` it is outside.
pub change-perform_all :
    (exist : Bool) (us : List Use)
    → ((((perform_all (new_signal exist, running) us).1 ≡ running)
        ⊎ (((perform_all (new_signal exist, running) us).1 ≡ asleep)
            × ((perform_all (new_signal exist, running) us).0.exist ≡ true)
            × ((perform_all (new_signal exist, running) us).0.is_open ≡ false))))
      × ((change (perform_all (new_signal exist, running) us)).1 ≡ running)
change-perform_all exist us =
    let rests = perform_all-Rests (new_signal exist) running us (inl refl) in
    let (s, place) = perform_all (new_signal exist, running) us in
    (rests, change_wakes s place rests)

-- Where the serializer has tested an existing signal that is closed, and the parser opens it before the
-- serializer sleeps, the serializer then sleeps on an open signal; and the parser's next `change` closes
-- the signal and leaves the serializer asleep.
pub interleaved_lost_wakeup_of_wait :
    (s : Signal)
    → s.exist ≡ true
    → s.is_open ≡ false
    → ((sleep (change (test (s, running)))).1 ≡ asleep)
      × ((sleep (change (test (s, running)))).0.is_open ≡ true)
      × ((change (sleep (change (test (s, running))))).1 ≡ asleep)
unfolding sleep change test
interleaved_lost_wakeup_of_wait s there closed = simp (there, closed) (refl, refl, refl)
