-- ===== src/Port.antt =====
-- lib/iocplib/io_completion_port.h: the completion port, its workers, and the count of sockets
-- attached to it. Dispatched completions are those whose callback still lives.
pub mod Workers
pub mod Close
mod Tests
use cpp_iocplib.Base.{
  ℕ, zero, suc, ◌+◌, ◌-◌, ◌*◌, ◌%◌, ◌^◌, Bool, true, false, List, [], ◌∷◌, ◌++◌, Option, none, some,
  ◌==◌, if◌then◌else◌, replicate, add32, sub32,
}

-- `OverlappedContext::Data`: a union of a type and a pointer.
pub data Data : Type 0 where
  recv : Data
  send : Data
  obj : ℕ → Data

-- A completion that `GetQueuedCompletionStatus` returns: its `OVERLAPPED`, if not null, with the
-- callback if that lives; the error, 0 for success; and the count of bytes.
pub record Context : Type 0 where
  pub data_ : Data
  pub callback : Option ℕ

pub record Completion : Type 0 where
  pub context : Option Context
  pub error : ℕ
  pub transferred : ℕ

-- What a worker hands to `OnCompleteOverlappedIO`, and of which callback.
pub record Call : Type 0 where
  pub target : ℕ
  pub data_ : Data
  pub error : ℕ
  pub transferred : ℕ

abbrev call_of : Context → ℕ → ℕ → Option Call
call_of c error n = elim c.callback [
  | none ↦ none
  | some t ↦ some (record { target = t; data_ = c.data_; error = error; transferred = n })
]

-- One round of `IoCompletionPortWorker::Run`: whether it leaves the loop, and the call that it makes.
unfoldable pub dispatch : Option Context → ℕ → ℕ → Bool × Option Call
dispatch none error n = (true, none)
dispatch (some c) error n = (false, call_of c error n)

unfoldable pub run_round : Completion → Bool × Option Call
run_round e = dispatch e.context e.error e.transferred

abbrev pub call_list : Option Call → List Call
call_list none = []
call_list (some c) = c ∷ []

-- `Run` of one worker alone over the completions in the queue: the calls that it makes, and the
-- completions that it leaves. It waits where the queue is empty (the flag tells that it returned).
unfoldable pub run : List Completion → Bool × List Call × List Completion
run [] = (false, [], [])
run (e ∷ es) =
    let (stop, call) = run_round e in
    let (done, calls, left) = run es in
    if stop then (true, [], es) else (done, call_list call ++ calls, left)

-- `handle_` (`none` for null), the workers by their number, and `attached_sockets_`.
pub record IoCompletionPort : Type 0 where
  pub handle : Option ℕ
  pub workers : ℕ
  pub attached_sockets : ℕ

unfoldable pub new : IoCompletionPort
new = record { handle = none; workers = 0; attached_sockets = 0 }

-- The count of workers that `Create` starts, from its argument and the processors of the system.
unfoldable pub worker_count : ℕ → ℕ → ℕ
worker_count io_thread processors = if io_thread == 0 then (processors * 2) % 2 ^ 32 else io_thread

-- `Create`, by what `CreateIoCompletionPort` returns.
unfoldable pub create : ℕ → ℕ → Option ℕ → IoCompletionPort → Bool × IoCompletionPort
create io_thread processors created p = elim created [
  | none ↦ (false, record p { handle = none })
  | some h ↦
      (true, record p { handle = some h; workers = p.workers + worker_count io_thread processors })
]

-- `Attach`, by whether `CreateIoCompletionPort` succeeds. The count is a `uint32_t`.
unfoldable pub attach : Bool → IoCompletionPort → IoCompletionPort
attach joined p = if joined then record p { attached_sockets = add32 p.attached_sockets 1 } else p

-- `Detach`; `none` where its assertion fails.
unfoldable pub detach : IoCompletionPort → Option IoCompletionPort
detach p =
    if p.attached_sockets == 0
    then none
    else some (record p { attached_sockets = p.attached_sockets - 1 })

-- The completion that ends a worker.
abbrev pub stop_completion : Completion
stop_completion = record { context = none; error = 0; transferred = 0 }

-- The wait of `Close` for the sockets, for at most so many reads of the count; between two reads the
-- other threads may attach sockets, each number of them an element of the list.
unfoldable pub wait_detached : List ℕ → IoCompletionPort → Option IoCompletionPort
wait_detached [] p = none
wait_detached (others ∷ more) p =
    let again =
      wait_detached more (record p { attached_sockets = add32 p.attached_sockets others }) in
    if p.attached_sockets == 0 then some p else again

-- What `Close` posts, one completion for each worker.
unfoldable pub stops : IoCompletionPort → List Completion
stops p = replicate p.workers stop_completion
