-- ===== src/Port/Tests.antt =====
-- The instances of the port's theorems.
use cpp_iocplib.Port.Workers.Ends.{closing_ends, left_to_do}
use cpp_iocplib.Base.{◌<◌, arith, ◌≡◌, ◌≢◌, refl, some, [], ◌∷◌, ◌⊎◌}
use cpp_iocplib.Port.{Completion, stop_completion, send, IoCompletionPort, stops}
use mathlib.Core.List.{Perm}
use cpp_iocplib.Port.Workers.{Step, Pool, Reach, here, next, takes, take_one, closing, calls_for}

abbrev sent : Completion
sent = record {
  context = some (record { data_ = send; callback = some 9 });
  error = 0;
  transferred = 6;
}

-- Two workers, of which one has taken the completion and not made its call.
abbrev port : IoCompletionPort
port = record { handle = some 1; workers = 2; attached_sockets = 0 }

abbrev one_taken : Pool
one_taken = take_one (closing (sent ∷ []) port) sent (stop_completion ∷ stop_completion ∷ [])

one_taken-Reach : Reach (closing (sent ∷ []) port) one_taken
unfolding closing stops
one_taken-Reach = next here (takes sent _ refl (omega arith))

closing_ends_example :
    ((one_taken.queue ≢ []) ⊎ (one_taken.held ≢ []) → (q : Pool) × Step one_taken q)
    × ((q : Pool) → Step one_taken q → left_to_do q < left_to_do one_taken)
    × (one_taken.queue ≡ []
        → one_taken.held ≡ []
        → (one_taken.waiting ≡ 0) × Perm one_taken.made (calls_for (sent ∷ [])))
closing_ends_example = closing_ends (sent ∷ []) port (tt, tt) (omega arith) one_taken-Reach
