-- ===== src/Miner/Main/Steps.antt =====
-- `miner_main` of miner.c from the creation of its threads on: the main thread and the threads, with
-- the flag to terminate and the semaphore that the threads wait for.
use dei_chain.Base.{
  ℕ, zero, suc, ◌+◌, ◌≡◌, Bool, true, false, Option, none, some, List, [], ◌∷◌, ◌++◌, set,
  get_elem?, length, ltb, if◌then◌else◌,
}

-- Where a thread stands in the loop of `miner_thread_function`.
pub data ThreadPoint : Type 0 where
  at_while : ThreadPoint  -- before the test of the flag
  at_wait : ThreadPoint  -- before or in `sem_wait`
  awake : ThreadPoint  -- before the test behind `sem_wait`
  at_round : ThreadPoint  -- in the rest of a round
  blocked : ThreadPoint  -- in the rest of a round, in a call that waits for another process
  gone : ThreadPoint

-- Where the main thread stands.
pub data MainPoint : Type 0 where
  creating : MainPoint  -- in the loop that creates the threads
  testing : MainPoint  -- before the test of the flag
  pausing : MainPoint  -- before `pause`
  asleep : MainPoint  -- in `pause`
  posting : ℕ → MainPoint  -- in the loop that wakes the threads, with so many posts left
  joining : ℕ → MainPoint  -- in the loop that joins the threads, before the thread of this index
  undefined : MainPoint  -- a thread is joined that was never created
  ended : MainPoint

pub record Process : Type 0 where
  pub main : MainPoint
  pub threads : List ThreadPoint
  pub flag : Bool
  pub work_notification_sem : ℕ

-- The rest of a round counts as one step, but the thread may be blocked in it: in `open` of the pipe until
-- there is a reader, in `write` while the pipe is full, and in `sem_wait` of a mutex.
--
-- A step of a thread, given the flag and the semaphore. The first argument says that `sem_wait` is
-- interrupted, or that the rest of the round finds the flag set and leaves the loop. `none` says that
-- there is no such step.
unfoldable pub thread_step : Bool → Bool → ThreadPoint → ℕ → Option (ThreadPoint × ℕ)
thread_step other flag at_while n = some (if flag then gone else at_wait, n)
thread_step true flag at_wait n = some (gone, n)
thread_step false flag at_wait zero = none
thread_step false flag at_wait (suc n) = some (awake, n)
thread_step other flag awake n = some (if flag then gone else at_round, n)
thread_step false flag at_round n = some (at_while, n)
thread_step true true at_round n = some (gone, n)
thread_step true false at_round n = none
thread_step other flag blocked n = none
thread_step other flag gone n = none

-- `pthread_join` returns when the thread is gone.
unfoldable pub join : ℕ → ℕ → List ThreadPoint → Option MainPoint
join num_miners i threads =
    if ltb i num_miners
    then elim (get_elem? threads i) [
      | none ↦ some undefined
      | some gone ↦ some (joining (suc i))
      | some at_while ↦ none
      | some at_wait ↦ none
      | some awake ↦ none
      | some at_round ↦ none
      | some blocked ↦ none
    ]
    else some ended

-- A step of the main thread; the first argument is whether `pthread_create` succeeds.
unfoldable pub main_step : Bool → ℕ → MainPoint → Process → Option Process
unfolding join
main_step created num_miners creating s =
    if ltb (length s.threads) num_miners
    then (if created
        then some (record s { threads = s.threads ++ at_while ∷ [] })
        else some (record s { main = testing; flag = true }))
    else some (record s { main = testing })
main_step created num_miners testing s =
    some (record s { main = if s.flag then posting num_miners else pausing })
main_step created num_miners pausing s = some (record s { main = asleep })
main_step created num_miners asleep s = none
main_step created num_miners (posting zero) s = some (record s { main = joining 0 })
main_step created num_miners (posting (suc n)) s =
    some (record s { main = posting n; work_notification_sem = s.work_notification_sem + 1 })
main_step created num_miners (joining i) s = elim (join num_miners i s.threads) [
  | none ↦ none
  | some p ↦ some (record s { main = p })
]
main_step created num_miners undefined s = none
main_step created num_miners ended s = none

-- The handler of SIGTERM and SIGINT, and the return of `pause` after it.
unfoldable pub woken : MainPoint → MainPoint
woken asleep = testing
woken creating = creating
woken testing = testing
woken pausing = pausing
woken (posting n) = posting n
woken (joining i) = joining i
woken undefined = undefined
woken ended = ended

unfoldable pub miner_signal_handler : Process → Process
unfolding woken
miner_signal_handler s = record s { main = woken s.main; flag = true }

-- A generator posts after each transaction that it adds.
abbrev pub notified : Process → Process
notified s = record s { work_notification_sem = s.work_notification_sem + 1 }

-- Before the first thread is created.
abbrev pub started : ℕ → Process
started n = record { main = creating; threads = []; flag = false; work_notification_sem = n }

module _ (num_miners : ℕ) where
  -- A step of the process of its own.
  pub data Step (s : Process) : Process → Type 0 where
    main_goes :
        (created : Bool) (t : Process) → main_step created num_miners s.main s ≡ some t → Step s t
    thread_goes :
        (i : ℕ) (p q : ThreadPoint) (n : ℕ) (other : Bool)
        → get_elem? s.threads i ≡ some p
        → thread_step other s.flag p s.work_notification_sem ≡ some (q, n)
        → Step s (record s { threads = set s.threads i q; work_notification_sem = n })

  -- A run with so many steps of the process of its own; in between come any signals and posts, and threads
  -- are blocked in their rounds and go on as other processes let them.
  pub data Run (s : Process) : ℕ → Process → Type 0 where
    here : Run s zero s
    own : {k : ℕ} {t u : Process} → Run s k t → Step t u → Run s (suc k) u
    signal : {k : ℕ} {t : Process} → Run s k t → Run s k (miner_signal_handler t)
    post : {k : ℕ} {t : Process} → Run s k t → Run s k (notified t)
    blocks :
        {k : ℕ} {t : Process} (i : ℕ)
        → Run s k t
        → get_elem? t.threads i ≡ some at_round
        → Run s k (record t { threads = set t.threads i blocked })
    goes_on :
        {k : ℕ} {t : Process} (i : ℕ)
        → Run s k t
        → get_elem? t.threads i ≡ some blocked
        → Run s k (record t { threads = set t.threads i at_round })
