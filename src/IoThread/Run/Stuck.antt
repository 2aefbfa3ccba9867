-- ===== src/IoThread/Run/Stuck.antt =====
-- The requests that wait while the I/O thread goes on without a new one.
use cpp_iocplib.Base.{true, Option, some, ◌≡◌}
use cpp_iocplib.IoThread.{SocketIoThread}
use cpp_iocplib.IoThread.Run.{Round, Calls, run_round}

-- Rounds of a thread while no other thread asks or closes: the wait returns 0 only where `events_[0]`
-- is set.
pub data Rounds (t : SocketIoThread) : SocketIoThread → Type 0 where
  here : Rounds t t
  next :
      {u v : SocketIoThread} {cs : Calls} (r : Round)
      → Rounds t u
      → (r.waited ≡ 0 → u.notified ≡ true)
      → run_round r u ≡ some (v, cs)
      → Rounds t v
