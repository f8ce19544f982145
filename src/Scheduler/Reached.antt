-- ===== src/Scheduler/Reached.antt =====
-- Any sequence of calls of the scheduler's methods.
use yafe.Prelude.{Option-cases, inl, inr, ℕ, ◌≡◌, true, some, arith}
use yafe.Text.{Text, trim_space}
use yafe.Schedule.{Schedule}
use yafe.Scheduler.{Scheduler, State, create, update, delete, enable, disable}
use yafe.Scheduler.Invariant.{is_enabled, stored, IsConsistent}
use yafe.Scheduler.Running.{IsRunning}
use yafe.Scheduler.Running.Switches.{delete-IsRunning, enable-IsRunning, disable-IsRunning}
use yafe.Scheduler.Running.Changes.{create-IsRunning, update-IsRunning}
use yafe.Scheduler.Methods.{
  create-IsConsistent, update-IsConsistent, delete-IsConsistent, enable-IsConsistent,
  disable-IsConsistent,
}

-- A call of a method, `create` with the time at which it is made.
pub data Call : Type 0 where
  create_call : ℕ → Schedule → Call
  update_call : Schedule → Call
  delete_call enable_call disable_call : Text → Call

abbrev pub call_name : Call → Text
call_name (create_call now schedule) = schedule.name
call_name (update_call schedule) = schedule.name
call_name (delete_call name) = name
call_name (enable_call name) = name
call_name (disable_call name) = name

module _ {C K : Type 0} (sched : Scheduler C K) where
  abbrev pub perform : Call → State C K → State C K
  perform (create_call now schedule) s = (create sched now schedule s).1
  perform (update_call schedule) s = (update sched schedule s).1
  perform (delete_call name) s = (delete sched name s).1
  perform (enable_call name) s = (enable sched name s).1
  perform (disable_call name) s = (disable sched name s).1

  -- The states that calls lead to whose names have no space around them.
  pub data Reached (start : State C K) : State C K → Type 0 where
    at_start : Reached start start
    after_call :
        (call : Call) (s : State C K)
        → Reached start s
        → trim_space (call_name call) ≡ call_name call
        → Reached start (perform call s)

  perform-IsConsistent :
      (call : Call) (s : State C K)
      → trim_space (call_name call) ≡ call_name call
      → IsConsistent sched s
      → IsConsistent sched (perform call s)
  perform-IsConsistent (create_call now schedule) s = create-IsConsistent sched now schedule s
  perform-IsConsistent (update_call schedule) s = update-IsConsistent sched schedule s
  perform-IsConsistent (delete_call name) s = delete-IsConsistent sched name s
  perform-IsConsistent (enable_call name) s = enable-IsConsistent sched name s
  perform-IsConsistent (disable_call name) s = disable-IsConsistent sched name s

  Reached-IsConsistent :
      (start s : State C K) → IsConsistent sched start → Reached start s → IsConsistent sched s
  Reached-IsConsistent start s c at_start = c
  Reached-IsConsistent start s c (after_call call before r trimmed) =
      perform-IsConsistent call before trimmed (Reached-IsConsistent start before c r)

  -- Whatever calls were made whose names have no space around them, on a disk where every call
  -- works and from a consistent state: an entry of the cron runner that calls for a schedule is the
  -- one that the map has for it, no schedule has two entries, and the schedule is stored and enabled.
  pub entries-Reached :
      (start s : State C K)
      → IsConsistent sched start
      → Reached start s
      → (id : ℕ) (name : Text) → sched.cron.calls s.runner id ≡ some name
      → (s.entries name ≡ some id)
        × ((other : ℕ) → sched.cron.calls s.runner other ≡ some name → other ≡ id)
        × (is_enabled (stored sched s name) ≡ true)
  entries-Reached start s c r id name h =
      let final = Reached-IsConsistent start s c r in
      let tracked = final.linked.tracked in
      (
        tracked id name h,
        (λ other k. ground (arith, tracked other name k, tracked id name h)),
        final.only_enabled name id (tracked id name h),
      )

  perform-IsRunning :
      (call : Call) (s : State C K)
      → trim_space (call_name call) ≡ call_name call
      → IsConsistent sched s
      → IsRunning sched s
      → IsRunning sched (perform call s)
  perform-IsRunning (create_call now schedule) s trimmed c run =
      create-IsRunning sched s c run now schedule trimmed
  perform-IsRunning (update_call schedule) s trimmed c run =
      update-IsRunning sched s c run schedule trimmed
  perform-IsRunning (delete_call name) s trimmed c run = delete-IsRunning sched s c run name trimmed
  perform-IsRunning (enable_call name) s trimmed c run = enable-IsRunning sched s c run name trimmed
  perform-IsRunning (disable_call name) s trimmed c run =
      disable-IsRunning sched s c run name trimmed

  Reached-IsRunning :
      (start s : State C K)
      → IsConsistent sched start
      → IsRunning sched start
      → Reached start s
      → IsRunning sched s
  Reached-IsRunning start s c run at_start = run
  Reached-IsRunning start s c run (after_call call before r trimmed) =
      perform-IsRunning call before trimmed (Reached-IsConsistent start before c r)
        (Reached-IsRunning start before c run r)

  -- Whatever calls were made whose names have no space around them, on a disk where every call
  -- works and from a consistent state in which every stored schedule parses and has an entry if it is
  -- enabled: a schedule that is stored and enabled has an entry of the cron runner that calls for it.
  pub enabled-Reached :
      (start s : State C K)
      → IsConsistent sched start
      → IsRunning sched start
      → Reached start s
      → (name : Text) (schedule : Schedule) → stored sched s name ≡ some schedule
      → schedule.enabled ≡ true
      → (id : ℕ) × (sched.cron.calls s.runner id ≡ some name)
  enabled-Reached start s c run r name schedule h on =
      let final = Reached-IsConsistent start s c r in
      let covered = (Reached-IsRunning start s c run r).covered name in
      elim (Option-cases (s.entries name)) [
        | inl e ↦ absurd (ground (arith, covered, h, on, e))
        | inr (id, e) ↦ (id, final.linked.called id name e)
      ]
