-- ===== src/Signal/Runs.antt =====
-- Concrete runs, and the theorems at concrete inputs.
use bee_rpc_over_grpc_py.Prelude.{◌≡◌, ◌⊎◌, refl, true, false, [], ◌∷◌, List}
use bee_rpc_over_grpc_py.Signal.{
  Signal, new_signal, running, asleep, change, test, sleep, Use, changes, waits, perform_all,
  change-perform_all, interleaved_lost_wakeup_of_wait,
}

abbrev closed : Signal
closed = record { exist = true; is_open = false }

abbrev uses : List Use
uses = changes ∷ waits ∷ changes ∷ changes ∷ waits ∷ []

waiting : perform_all (new_signal true, running) uses ≡ (closed, asleep)
unfolding perform_all
waiting = refl

change-perform_all_example :
    (((perform_all (new_signal true, running) uses).1 ≡ running)
      ⊎ (((perform_all (new_signal true, running) uses).1 ≡ asleep)
          × ((perform_all (new_signal true, running) uses).0.exist ≡ true)
          × ((perform_all (new_signal true, running) uses).0.is_open ≡ false)))
    × ((change (perform_all (new_signal true, running) uses)).1 ≡ running)
change-perform_all_example = change-perform_all true uses

interleaved_lost_wakeup_of_wait_example :
    ((sleep (change (test (closed, running)))).1 ≡ asleep)
    × ((sleep (change (test (closed, running)))).0.is_open ≡ true)
    × ((change (sleep (change (test (closed, running))))).1 ≡ asleep)
interleaved_lost_wakeup_of_wait_example = interleaved_lost_wakeup_of_wait closed refl refl
