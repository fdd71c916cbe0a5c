-- ===== src/Miner/Main/Ready.antt =====
-- What holds of the miner's process once it has left its loop, and the measure of what is left to do.
use dei_chain.Base.{set, length-set, total-set}
use dei_chain.Base.{
  ℕ, zero, suc, ◌+◌, ◌-◌, ◌≤◌, ◌<◌, ◌≡◌, refl, ap, subst, inl, inr, Bool, true, none, some, List,
  [], ◌∷◌, get_elem?, length, total, ltb, arith, Bool-cases, Option-cases,
}
use mathlib.Core.Option.{some-injective}
use dei_chain.Miner.Main.Steps.{
  ThreadPoint, at_while, at_wait, awake, at_round, blocked, gone, MainPoint, creating, testing,
  pausing, asleep, posting, joining, undefined, ended, Process, join,
}
use dei_chain.Miner.Main.Count.{rank, waits, GoneUpTo, GoneUpTo-set, GoneUpTo-suc, GoneUpTo-total}

-- What holds at a point of the main thread: once it posts, there are as many posts, made and to be made,
-- as threads that wait.
abbrev pub Ready : ℕ → MainPoint → List ThreadPoint → Bool → ℕ → Type 0
Ready num_miners creating threads flag sem = Unit {0}
Ready num_miners testing threads flag sem = Unit {0}
Ready num_miners pausing threads flag sem = Unit {0}
Ready num_miners asleep threads flag sem = Unit {0}
Ready num_miners (posting n) threads flag sem = (flag ≡ true) × (total waits threads ≤ sem + n)
Ready num_miners (joining i) threads flag sem =
    (flag ≡ true) × (total waits threads ≤ sem) × (i ≤ num_miners) × GoneUpTo i threads
Ready num_miners undefined threads flag sem =
    (flag ≡ true) × (total rank threads ≡ 0) × (length threads < num_miners)
Ready num_miners ended threads flag sem =
    (flag ≡ true) × (total rank threads ≡ 0) × (length threads ≡ num_miners)

pub record IsReady (num_miners : ℕ) (s : Process) : Type 0 where
  pub few : length s.threads ≤ num_miners
  pub ready : Ready num_miners s.main s.threads s.flag s.work_notification_sem

-- The main thread has left its loop.
abbrev pub IsEnding : MainPoint → Type 0
IsEnding creating = ⊥
IsEnding testing = ⊥
IsEnding pausing = ⊥
IsEnding asleep = ⊥
IsEnding (posting n) = Unit {0}
IsEnding (joining i) = Unit {0}
IsEnding undefined = Unit {0}
IsEnding ended = Unit {0}

-- The steps that are left to the main thread at most.
abbrev pub main_rank : ℕ → MainPoint → ℕ
main_rank num_miners (posting n) = n + num_miners + 2
main_rank num_miners (joining i) = (num_miners - i) + 1
main_rank num_miners p = 0

abbrev pub left : ℕ → Process → ℕ
left num_miners s = main_rank num_miners s.main + total rank s.threads

pub waits-le : (p : ThreadPoint) → waits p ≤ 1
waits-le p = ground arith

pub rank-le : (p : ThreadPoint) → rank p ≤ 2
rank-le p = ground arith

pub get_elem?-none : (ps : List ThreadPoint) (i : ℕ) → length ps ≤ i → get_elem? ps i ≡ none
get_elem?-none [] i h = refl
get_elem?-none (p ∷ ps) zero h = absurd (omega arith)
get_elem?-none (p ∷ ps) (suc i) h = get_elem?-none ps i (omega arith)

pub GoneUpTo-length : (i : ℕ) (ps : List ThreadPoint) → GoneUpTo i ps → i ≤ length ps
GoneUpTo-length zero ps h = omega arith
GoneUpTo-length (suc i) [] h = elim h [ ]
GoneUpTo-length (suc i) (p ∷ ps) h = omega (arith, GoneUpTo-length i ps h.1)

module _ (num_miners : ℕ) where
  -- What a step keeps, and that it counts.
  abbrev pub Goes : Process → Process → Type 0
  Goes s t =
      IsReady num_miners t
      × (IsEnding s.main → IsEnding t.main × (left num_miners t < left num_miners s))

  pub Ready-at :
      (s : Process) (p : MainPoint)
      → IsReady num_miners s
      → s.main ≡ p
      → Ready num_miners p s.threads s.flag s.work_notification_sem
  Ready-at s p h at =
      subst (λ m. Ready num_miners m s.threads s.flag s.work_notification_sem) at h.ready

  -- For the measure, what the main thread's point contributes.
  pub counted :
      (s : Process) (p : MainPoint)
      → s.main ≡ p
      → left num_miners s ≡ main_rank num_miners p + total rank s.threads
  counted s p at = ap (λ m. main_rank num_miners m + total rank s.threads) at

  pub Goes-some : (s t u : Process) → Goes s u → some u ≡ some t → Goes s t
  Goes-some s t u h e = subst (Goes s) (some-injective _ _ e) h

  pub join_lem :
      (flag : Bool) (i : ℕ) (ps : List ThreadPoint) (sem : ℕ) (p : MainPoint)
      → length ps ≤ num_miners
      → Ready num_miners (joining i) ps flag sem
      → join num_miners i ps ≡ some p
      → Ready num_miners p ps flag sem
        × IsEnding p
        × (main_rank num_miners p < (num_miners - i) + 1)
  unfolding join
  join_lem flag i ps sem p few (flagged, enough, within, before) e =
      elim (Bool-cases (ltb i num_miners)) [
        | inl more ↦ elim (Option-cases (get_elem? ps i)) [
          | inl missing ↦
              let (size, done) = GoneUpTo-total i ps missing before in
              becomes undefined ((flagged, done, ground (arith, more, size)), tt, omega arith)
                (rw (more, missing, join) at e)
          | inr (at_while, there) ↦ cc (rw (more, there, join) at e)
          | inr (at_wait, there) ↦ cc (rw (more, there, join) at e)
          | inr (awake, there) ↦ cc (rw (more, there, join) at e)
          | inr (at_round, there) ↦ cc (rw (more, there, join) at e)
          | inr (blocked, there) ↦ cc (rw (more, there, join) at e)
          | inr (gone, there) ↦
              let lt : i < num_miners = ground (arith, more) in
              becomes (joining (suc i))
                (
                  (flagged, enough, omega (arith, lt), GoneUpTo-suc i ps there before),
                  tt,
                  omega (arith, lt),
                )
                (rw (more, there, join) at e)
        ]
        | inr last ↦
            let all : i ≡ num_miners = ground (arith, last, within) in
            let missing = get_elem?-none ps i (omega (arith, all, few)) in
            let (size, done) = GoneUpTo-total i ps missing before in
            becomes ended ((flagged, done, omega (arith, size, all)), tt, omega arith)
              (rw (last, join) at e)
      ]
    where
      Ends : MainPoint → Type 0
      Ends q =
          Ready num_miners q ps flag sem
          × IsEnding q
          × (main_rank num_miners q < (num_miners - i) + 1)

      becomes : (q : MainPoint) → Ends q → some q ≡ some p → Ends p
      becomes q h e' = subst Ends (some-injective _ _ e') h

  -- A thread that is blocked in its round, or goes on in it, is as far from its end as before.
  swap-Ready :
      (p : MainPoint) (threads : List ThreadPoint) (flag : Bool) (sem i : ℕ) (x q : ThreadPoint)
      → get_elem? threads i ≡ some x
      → 0 < rank x
      → rank q ≡ rank x
      → waits q ≡ waits x
      → Ready num_miners p threads flag sem
      → Ready num_miners p (set threads i q) flag sem
  swap-Ready creating threads flag sem i x q at busy r w h = tt
  swap-Ready testing threads flag sem i x q at busy r w h = tt
  swap-Ready pausing threads flag sem i x q at busy r w h = tt
  swap-Ready asleep threads flag sem i x q at busy r w h = tt
  swap-Ready (posting k) threads flag sem i x q at busy r w h =
      (h.0, omega (arith, h.1, w, total-set waits threads i x q at))
  swap-Ready (joining k) threads flag sem i x q at busy r w h = (
    h.0,
    omega (arith, h.1, w, total-set waits threads i x q at),
    h.2,
    GoneUpTo-set k i threads x q at busy h.3,
  )
  swap-Ready undefined threads flag sem i x q at busy r w h = (
    h.0,
    omega (arith, h.1, r, total-set rank threads i x q at),
    omega (arith, h.2, length-set threads i q),
  )
  swap-Ready ended threads flag sem i x q at busy r w h = (
    h.0,
    omega (arith, h.1, r, total-set rank threads i x q at),
    omega (arith, h.2, length-set threads i q),
  )

  pub swap-IsReady :
      (s : Process) (i : ℕ) (x q : ThreadPoint)
      → get_elem? s.threads i ≡ some x
      → 0 < rank x
      → rank q ≡ rank x
      → waits q ≡ waits x
      → IsReady num_miners s
      → IsReady num_miners (record s { threads = set s.threads i q })
  swap-IsReady s i x q at busy r w h = record {
    few = omega (arith, h.few, length-set s.threads i q);
    ready = swap-Ready s.main s.threads s.flag s.work_notification_sem i x q at busy r w h.ready;
  }
