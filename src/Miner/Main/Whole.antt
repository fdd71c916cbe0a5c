-- ===== src/Miner/Main/Whole.antt =====
-- `miner_main` of miner.c from its start to its end.
use dei_chain.Base.{
  ℕ, ◌≡◌, refl, ap, ◌⊎◌, inl, inr, Bool, true, false, not, ◌||◌, ◌&&◌, none, some, List, [], ◌∷◌,
  ◌++◌, get_elem?, length, if◌then◌else◌, arith,
}
use dei_chain.Base.Segments.{Segment, pool_segment, ledger_segment, config_segment, without, detach}
use dei_chain.Miner.Main.Steps.{ThreadPoint, gone, ended, Process, started, Run}
use dei_chain.Miner.Main.Count.{all_gone}
use dei_chain.Miner.Main.Ready.{IsReady, Ready-at}
use dei_chain.Miner.Main.Liveness.{Run-IsReady}

-- The outcomes of the calls of `shmat` and of `malloc` before the threads are created.
pub record MinerStart : Type 0 where
  pub pool_attached : Bool
  pub ledger_attached : Bool
  pub config_attached : Bool
  pub threads_allocated : Bool
  pub args_allocated : Bool

-- The two arrays that `miner_main` allocates.
pub data Array : Type 0 where
  miner_threads thread_args : Array

abbrev array_number : Array → ℕ
array_number miner_threads = 0
array_number thread_args = 1

-- `free`
abbrev free : Array → List Array → List Array
free = without array_number

-- What is attached and allocated.
pub record Held : Type 0 where
  pub attached : List Segment
  pub unfreed : List Array

abbrev holding : List Segment → List Array → Held
holding attached unfreed = record { attached = attached; unfreed = unfreed }

-- Whether the function goes on to create the threads, or returns `EXIT_FAILURE`, and what it holds.
unfoldable pub miner_begins : MinerStart → Bool × Held
miner_begins start =
    let all = pool_segment ∷ ledger_segment ∷ config_segment ∷ [] in
    if not start.pool_attached
    then (false, holding [] [])
    else if not start.ledger_attached
    then (false, holding (pool_segment ∷ []) [])
    else if not start.config_attached
    then (false, holding (pool_segment ∷ ledger_segment ∷ []) [])
    else (let arrays =
          (if start.threads_allocated then miner_threads ∷ [] else [])
          ++ (if start.args_allocated then thread_args ∷ [] else []) in
        if not start.threads_allocated || not start.args_allocated
        then (false, holding all arrays)
        else (true, holding all arrays))

-- Behind the joining: the two calls of `free`, and the three of `shmdt`.
unfoldable pub miner_ends : Held → Held
miner_ends h = record {
  attached = detach config_segment (detach ledger_segment (detach pool_segment h.attached));
  unfreed = free thread_args (free miner_threads h.unfreed);
}

-- `miner_main` returns `EXIT_SUCCESS` or not, with what it still holds and with the threads as they
-- stand then.
pub data Returns (num_miners sem : ℕ) (start : MinerStart)
    : Bool → Held → List ThreadPoint → Type 0 where
  at_begin :
      (miner_begins start).0 ≡ false → Returns num_miners sem start false (miner_begins start).1 []
  at_end :
      {k : ℕ} {s : Process}
      → (miner_begins start).0 ≡ true
      → Run num_miners (started sem) k s
      → s.main ≡ ended
      → Returns num_miners sem start true (miner_ends (miner_begins start).1) s.threads

abbrev pub all_succeed : MinerStart → Bool
all_succeed start =
    start.pool_attached && start.ledger_attached && start.config_attached && start.threads_allocated
    && start.args_allocated

begins_all :
    (start : MinerStart)
    → (miner_begins start).0 ≡ true
    → (all_succeed start ≡ true)
      × (miner_begins start ≡ (
        true,
        holding
            (pool_segment ∷ ledger_segment ∷ config_segment ∷ [])
            (miner_threads ∷ thread_args ∷ []),
      ))
unfolding miner_begins
begins_all start e = ground arith

begins_failing : (start : MinerStart) → (miner_begins start).0 ≡ false → all_succeed start ≡ false
unfolding miner_begins
begins_failing start e = ground arith

-- However `miner_main` comes to its return, whatever signals and posts come and however threads are
-- blocked in between: no thread runs any more, so that none uses the arguments that have been freed or
-- the segments that have been detached. Either it succeeds, each call of its start and each
-- `pthread_create` has succeeded, so that there were `num_miners` threads, and no array is left
-- allocated and no segment attached; or it fails, a call of its start has failed, and no thread was
-- created.
pub Returns-gone :
    {num_miners sem : ℕ} {start : MinerStart} {success : Bool} {held : Held}
    {threads : List ThreadPoint}
    → Returns num_miners sem start success held threads
    → ((i : ℕ) → (get_elem? threads i ≡ none) ⊎ (get_elem? threads i ≡ some gone))
      × (((success ≡ true)
            × (all_succeed start ≡ true)
            × (length threads ≡ num_miners)
            × (held.attached ≡ [])
            × (held.unfreed ≡ []))
          ⊎ ((success ≡ false) × (all_succeed start ≡ false) × (threads ≡ [])))
unfolding miner_ends
Returns-gone {start = start} (at_begin e) =
    (λ i. inl refl, inr (refl, begins_failing start e, refl))
Returns-gone {num_miners} {start = start} (at_end {s = s} e run at) =
    let ready : IsReady num_miners s =
      Run-IsReady num_miners (record { few = omega arith; ready = tt }) run in
    let (_, done, all) = Ready-at num_miners s ended ready at in
    let (every, holds) = begins_all start e in
    (
      λ i. all_gone s.threads i done,
      inl (
        refl,
        every,
        all,
        ap (λ (r : Bool × Held). (miner_ends r.1).attached) holds,
        ap (λ (r : Bool × Held). (miner_ends r.1).unfreed) holds,
      ),
    )
