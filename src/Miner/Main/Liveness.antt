-- ===== src/Miner/Main/Liveness.antt =====
-- The miner's process ends, once its main thread has left its loop.
use dei_chain.Base.{
  ℕ, zero, suc, ◌+◌, ◌*◌, ◌≤◌, ◌<◌, ◌≡◌, refl, sym, ap, subst, ◌⊎◌, inl, inr, Bool, true, false,
  some, List, length, total, total-le, total-set, get_elem?, ◌∙◌, ltb, arith, Bool-cases,
}
use dei_chain.Miner.Main.Steps.{
  ThreadPoint, MainPoint, creating, testing, pausing, asleep, posting, joining, undefined, ended,
  Process, join, main_step, woken, miner_signal_handler, started, Step, main_goes, thread_goes, Run,
  here, own, signal, post, blocks, goes_on, at_round, blocked,
}
use dei_chain.Miner.Main.Count.{rank, thread_step-some, busy_or_gone, all_gone}
use dei_chain.Miner.Main.Ready.{Ready, IsReady, IsEnding, main_rank, left, rank-le, swap-IsReady}
use dei_chain.Miner.Main.Ending.{Step-Goes}

-- All threads are gone, and the main thread has come to its end if all were created.
pub data IsFinished (num_miners : ℕ) (s : Process) : Type 0 where
  joined_all :
      s.main ≡ ended
      → total rank s.threads ≡ 0
      → length s.threads ≡ num_miners
      → IsFinished num_miners s
  joined_uncreated :
      s.main ≡ undefined
      → total rank s.threads ≡ 0
      → length s.threads < num_miners
      → IsFinished num_miners s

module _ (num_miners : ℕ) where
  woken-Ready :
      (p : MainPoint) (threads : List ThreadPoint) (flag : Bool) (sem : ℕ)
      → Ready num_miners p threads flag sem
      → Ready num_miners (woken p) threads true sem
  unfolding woken
  woken-Ready creating threads flag sem h = tt
  woken-Ready testing threads flag sem h = tt
  woken-Ready pausing threads flag sem h = tt
  woken-Ready asleep threads flag sem h = tt
  woken-Ready (posting n) threads flag sem h = (refl, h.1)
  woken-Ready (joining i) threads flag sem h = (refl, h.1, h.2, h.3)
  woken-Ready undefined threads flag sem h = (refl, h.1, h.2)
  woken-Ready ended threads flag sem h = (refl, h.1, h.2)

  woken_ending : (p : MainPoint) → IsEnding p → woken p ≡ p
  unfolding woken
  woken_ending creating m = absurd m
  woken_ending testing m = absurd m
  woken_ending pausing m = absurd m
  woken_ending asleep m = absurd m
  woken_ending (posting n) m = refl
  woken_ending (joining i) m = refl
  woken_ending undefined m = refl
  woken_ending ended m = refl

  notified-Ready :
      (p : MainPoint) (threads : List ThreadPoint) (flag : Bool) (sem : ℕ)
      → Ready num_miners p threads flag sem
      → Ready num_miners p threads flag (sem + 1)
  notified-Ready creating threads flag sem h = tt
  notified-Ready testing threads flag sem h = tt
  notified-Ready pausing threads flag sem h = tt
  notified-Ready asleep threads flag sem h = tt
  notified-Ready (posting n) threads flag sem h = (h.0, omega (arith, h.1))
  notified-Ready (joining i) threads flag sem h = (h.0, omega (arith, h.1), h.2, h.3)
  notified-Ready undefined threads flag sem h = h
  notified-Ready ended threads flag sem h = h

  pub Run-IsReady :
      {s t : Process} {k : ℕ} → IsReady num_miners s → Run num_miners s k t → IsReady num_miners t
  unfolding miner_signal_handler
  Run-IsReady h here = h
  Run-IsReady h (own r st) = (Step-Goes num_miners (Run-IsReady h r) st).0
  Run-IsReady h (signal {t} r) =
      let h' = Run-IsReady h r in
      record {
        few = h'.few;
        ready = woken-Ready t.main t.threads t.flag t.work_notification_sem h'.ready;
      }
  Run-IsReady h (post {t} r) =
      let h' = Run-IsReady h r in
      record {
        few = h'.few;
        ready = notified-Ready t.main t.threads t.flag t.work_notification_sem h'.ready;
      }
  Run-IsReady h (blocks {t} i r at) =
      swap-IsReady num_miners t i at_round blocked at (omega arith) refl refl (Run-IsReady h r)
  Run-IsReady h (goes_on {t} i r at) =
      swap-IsReady num_miners t i blocked at_round at (omega arith) refl refl (Run-IsReady h r)

  -- Each step of its own takes one at least off what is left.
  Run-left :
      {s t : Process} {k : ℕ}
      → IsReady num_miners s
      → IsEnding s.main
      → Run num_miners s k t
      → IsEnding t.main × (k + left num_miners t ≤ left num_miners s)
  unfolding miner_signal_handler
  Run-left h m here = (m, omega arith)
  Run-left h m (own r st) =
      let (m', few) = Run-left h m r in
      let (m'', less) = (Step-Goes num_miners (Run-IsReady h r) st).1 m' in
      (m'', omega (arith, few, less))
  Run-left h m (signal {t} r) =
      let (m', few) = Run-left h m r in
      let same = woken_ending t.main m' in
      (subst IsEnding (sym same) m', omega (arith, few, ap (main_rank num_miners) same))
  Run-left h m (post {t} r) = Run-left h m r
  Run-left h m (blocks {t} i r at) =
      let (m', few) = Run-left h m r in
      (m', omega (arith, few, total-set rank t.threads i at_round blocked at))
  Run-left h m (goes_on {t} i r at) =
      let (m', few) = Run-left h m r in
      (m', omega (arith, few, total-set rank t.threads i blocked at_round at))

  main_can :
      (s t : Process) (p : MainPoint)
      → s.main ≡ p
      → main_step true num_miners p s ≡ some t
      → (u : Process) × Step num_miners s u
  main_can s t p at e =
      (t, main_goes true t (subst (λ m. main_step true num_miners m s ≡ some t) (sym at) e))

  joins :
      (s : Process) (i : ℕ)
      → s.main ≡ joining i
      → total rank s.threads ≡ 0
      → (u : Process) × Step num_miners s u
  unfolding main_step join
  joins s i at done = elim (Bool-cases (ltb i num_miners)) [
    | inr last ↦ main_can s (record s { main = ended }) (joining i) at (rw (last, main_step) refl)
    | inl more ↦ elim (all_gone s.threads i done) [
      | inl missing ↦
          main_can s (record s { main = undefined }) (joining i) at
            (rw (more, missing, main_step) refl)
      | inr there ↦
          main_can s (record s { main = joining (suc i) }) (joining i) at
            (rw (more, there, main_step) refl)
    ]
  ]

  -- Some thread is blocked in its round.
  abbrev pub IsBlocked : Process → Type 0
  IsBlocked s = (i : ℕ) × (get_elem? s.threads i ≡ some blocked)

  -- Where it is not finished, there is a step, or a thread is blocked.
  goes_or_IsFinished :
      (p : MainPoint) (s : Process)
      → s.main ≡ p
      → Ready num_miners p s.threads s.flag s.work_notification_sem
      → IsEnding p
      → ((t : Process) × Step num_miners s t) ⊎ IsBlocked s ⊎ IsFinished num_miners s
  unfolding main_step
  goes_or_IsFinished creating s at h m = absurd m
  goes_or_IsFinished testing s at h m = absurd m
  goes_or_IsFinished pausing s at h m = absurd m
  goes_or_IsFinished asleep s at h m = absurd m
  goes_or_IsFinished (posting zero) s at h m = inl (main_can s _ (posting zero) at refl)
  goes_or_IsFinished (posting (suc n)) s at h m = inl (main_can s _ (posting (suc n)) at refl)
  goes_or_IsFinished (joining i) s at h m = elim (busy_or_gone s.threads) [
    | inr done ↦ inl (joins s i at done)
    | inl (j, p, there, busy, one_waits) ↦
        elim (thread_step-some p s.flag s.work_notification_sem busy
          (omega (arith, one_waits, h.1))) [
            | inl stuck ↦ inr (inl (j, there ∙ ap some stuck))
            | inr (q, n, e) ↦ inl (_, thread_goes j p q n false there e)
          ]
  ]
  goes_or_IsFinished undefined s at h m = inr (inr (joined_uncreated at h.1 h.2))
  goes_or_IsFinished ended s at h m = inr (inr (joined_all at h.1 h.2))

  -- A run from the start of `miner_main`, whatever threads are created and whatever signals and posts
  -- come, that has left the loop: however the main thread and the threads go on, signals and posts
  -- still coming, they take `4 * num_miners + 2` steps at most, the rest of a round counted as one. Where
  -- no step is left, either a thread is blocked in its round, in a call that waits for another
  -- process, or every thread is gone and the main thread has joined them all, or one that was never
  -- created.
  pub miner_main-finishes :
      {s t : Process} {j k : ℕ} (sem : ℕ)
      → Run num_miners (started sem) j s
      → s.main ≡ posting num_miners
      → Run num_miners s k t
      → (k ≤ 4 * num_miners + 2)
        × (((u : Process) × Step num_miners t u) ⊎ IsBlocked t ⊎ IsFinished num_miners t)
  miner_main-finishes {s} {t} {j} {k} sem before leaves run =
      let ready : IsReady num_miners (started sem) = record { few = omega arith; ready = tt } in
      let h = Run-IsReady ready before in
      let (m, few) = Run-left h (subst IsEnding (sym leaves) tt) run in
      let h' = Run-IsReady h run in
      (
        omega (
          arith,
          few,
          h.few,
          total-le rank 2 s.threads rank-le,
          ap (main_rank num_miners) leaves,
        ),
        goes_or_IsFinished t.main t refl h'.ready m,
      )
