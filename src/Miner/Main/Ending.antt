-- ===== src/Miner/Main/Ending.antt =====
-- The end of the miner's process once it has left its loop.
use dei_chain.Base.{
  ℕ, zero, suc, ◌+◌, ◌≤◌, ◌<◌, ◌≡◌, refl, sym, subst, inl, inr, Bool, true, false, some, List, [],
  ◌∷◌, ◌++◌, set, get_elem?, length, length-set, length-append, total, total-set, total-le, ltb,
  arith, Bool-cases, Option-cases,
}
use dei_chain.Miner.Main.Steps.{
  ThreadPoint, at_while, MainPoint, creating, testing, pausing, asleep, posting, joining, undefined,
  ended, Process, thread_step, join, main_step, Step, main_goes, thread_goes,
}
use dei_chain.Miner.Main.Count.{rank, waits, thread_step-rank, GoneUpTo-set}
use dei_chain.Miner.Main.Ready.{
  Ready, IsReady, IsEnding, waits-le, Goes, Ready-at, counted, Goes-some, join_lem,
}

-- What a step of one thread does to the sums, once the flag is set.
stepped :
    (threads : List ThreadPoint) (flag other : Bool) (sem i n : ℕ) (x q : ThreadPoint)
    → flag ≡ true
    → get_elem? threads i ≡ some x
    → thread_step other flag x sem ≡ some (q, n)
    → (total rank (set threads i q) < total rank threads)
      × (total waits (set threads i q) + sem ≤ total waits threads + n)
stepped threads flag other sem i n x q flagged at e =
    let (less, paid) =
      thread_step-rank other x q sem n
        (subst (λ f. thread_step other f x sem ≡ some (q, n)) flagged e) in
    (
      omega (arith, less, total-set rank threads i x q at),
      omega (arith, paid, total-set waits threads i x q at),
    )

module _ (num_miners : ℕ) where
  creating-Goes :
      (created : Bool) (s t : Process)
      → IsReady num_miners s
      → s.main ≡ creating
      → main_step created num_miners creating s ≡ some t
      → Goes num_miners s t
  unfolding main_step
  creating-Goes created s t h at e = elim (Bool-cases (ltb (length s.threads) num_miners)) [
    | inr all ↦
        Goes-some num_miners s t (record s { main = testing })
          (record { few = h.few; ready = tt }, (λ m. absurd (subst IsEnding at m)))
          (rw (all, main_step) at e)
    | inl more ↦ elim (Bool-cases created) [
      | inr failed ↦
          Goes-some num_miners s t (record s { main = testing; flag = true })
            (record { few = h.few; ready = tt }, (λ m. absurd (subst IsEnding at m)))
            (rw (more, failed, main_step) at e)
      | inl done ↦
          Goes-some num_miners s t (record s { threads = s.threads ++ at_while ∷ [] })
            (
              record {
                few = ground (arith, more, length-append s.threads (at_while ∷ []));
                ready =
                    subst
                      (λ m.
                        Ready num_miners m (s.threads ++ at_while ∷ []) s.flag
                          s.work_notification_sem)
                      (sym at) tt;
              },
              (λ m. absurd (subst IsEnding at m)),
            )
            (rw (more, done, main_step) at e)
    ]
  ]

  testing-Goes :
      (created : Bool) (s t : Process)
      → IsReady num_miners s
      → s.main ≡ testing
      → main_step created num_miners testing s ≡ some t
      → Goes num_miners s t
  unfolding main_step
  testing-Goes created s t h at e = elim (Bool-cases s.flag) [
    | inr unset ↦
        Goes-some num_miners s t (record s { main = pausing; flag = false })
          (record { few = h.few; ready = tt }, (λ m. absurd (subst IsEnding at m)))
          (rw (unset, main_step) at e)
    | inl flagged ↦
        Goes-some num_miners s t (record s { main = posting num_miners; flag = true })
          (
            record {
              few = h.few;
              ready = (refl, omega (arith, h.few, total-le waits 1 s.threads waits-le));
            },
            (λ m. absurd (subst IsEnding at m)),
          )
          (rw (flagged, main_step) at e)
  ]

  join-Goes :
      (created : Bool) (i : ℕ) (s t : Process)
      → IsReady num_miners s
      → s.main ≡ joining i
      → main_step created num_miners (joining i) s ≡ some t
      → Goes num_miners s t
  unfolding main_step join
  join-Goes created i s t h at e = elim (Option-cases (join num_miners i s.threads)) [
    | inl waiting ↦ cc (rw (waiting, main_step) at e)
    | inr (p, joined) ↦
        let (ready, ending, less) =
          join_lem num_miners s.flag i s.threads s.work_notification_sem p h.few
            (Ready-at num_miners s (joining i) h at) joined in
        Goes-some num_miners s t (record s { main = p })
          (
            record { few = h.few; ready = ready },
            (λ m. (ending, omega (arith, less, counted num_miners s (joining i) at))),
          )
          (rw (joined, main_step) at e)
  ]

  main_step-Goes :
      (created : Bool) (p : MainPoint) (s t : Process)
      → IsReady num_miners s
      → s.main ≡ p
      → main_step created num_miners p s ≡ some t
      → Goes num_miners s t
  unfolding main_step
  main_step-Goes created creating s t h at e = creating-Goes created s t h at e
  main_step-Goes created testing s t h at e = testing-Goes created s t h at e
  main_step-Goes created pausing s t h at e =
      Goes-some num_miners s t (record s { main = asleep })
        (record { few = h.few; ready = tt }, (λ m. absurd (subst IsEnding at m))) e
  main_step-Goes created asleep s t h at e = cc
  main_step-Goes created (posting zero) s t h at e =
      let (flagged, enough) = Ready-at num_miners s (posting 0) h at in
      Goes-some num_miners s t (record s { main = joining 0 })
        (
          record { few = h.few; ready = (flagged, omega (arith, enough), omega arith, tt) },
          (λ m. (tt, omega (arith, counted num_miners s (posting 0) at))),
        )
        e
  main_step-Goes created (posting (suc n)) s t h at e =
      let (flagged, enough) = Ready-at num_miners s (posting (suc n)) h at in
      Goes-some num_miners s t
        (record s { main = posting n; work_notification_sem = s.work_notification_sem + 1 })
        (
          record { few = h.few; ready = (flagged, omega (arith, enough)) },
          (λ m. (tt, omega (arith, counted num_miners s (posting (suc n)) at))),
        )
        e
  main_step-Goes created (joining i) s t h at e = join-Goes created i s t h at e
  main_step-Goes created undefined s t h at e = cc
  main_step-Goes created ended s t h at e = cc

  thread-Ready :
      (p : MainPoint) (threads : List ThreadPoint) (flag other : Bool) (sem i n : ℕ)
      (x q : ThreadPoint)
      → Ready num_miners p threads flag sem
      → get_elem? threads i ≡ some x
      → thread_step other flag x sem ≡ some (q, n)
      → Ready num_miners p (set threads i q) flag n
        × (IsEnding p → total rank (set threads i q) < total rank threads)
  thread-Ready creating threads flag other sem i n x q h at e = (tt, λ m. absurd m)
  thread-Ready testing threads flag other sem i n x q h at e = (tt, λ m. absurd m)
  thread-Ready pausing threads flag other sem i n x q h at e = (tt, λ m. absurd m)
  thread-Ready asleep threads flag other sem i n x q h at e = (tt, λ m. absurd m)
  thread-Ready (posting k) threads flag other sem i n x q h at e =
      let (less, paid) = stepped threads flag other sem i n x q h.0 at e in
      ((h.0, omega (arith, h.1, paid)), λ m. less)
  thread-Ready (joining k) threads flag other sem i n x q h at e =
      let (less, paid) = stepped threads flag other sem i n x q h.0 at e in
      (
        (
          h.0,
          omega (arith, h.1, paid),
          h.2,
          GoneUpTo-set k i threads x q at (omega (arith, less, total-set rank threads i x q at))
              h.3,
        ),
        λ m. less,
      )
  thread-Ready undefined threads flag other sem i n x q h at e =
      let (less, paid) = stepped threads flag other sem i n x q h.0 at e in
      absurd (omega (arith, less, h.1))
  thread-Ready ended threads flag other sem i n x q h at e =
      let (less, paid) = stepped threads flag other sem i n x q h.0 at e in
      absurd (omega (arith, less, h.1))

  pub Step-Goes : {s t : Process} → IsReady num_miners s → Step num_miners s t → Goes num_miners s t
  Step-Goes {s} h (main_goes created t e) = main_step-Goes created s.main s t h refl e
  Step-Goes {s} h (thread_goes i p q n other at e) =
      let (ready, less) =
        thread-Ready s.main s.threads s.flag other s.work_notification_sem i n p q h.ready at e in
      (
        record { few = omega (arith, h.few, length-set s.threads i q); ready = ready },
        λ m. (m, omega (arith, less m)),
      )
