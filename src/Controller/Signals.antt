-- ===== src/Controller/Signals.antt =====
-- `signal_handler` and the loop of `controller_main` in controller.c, a program point at a time, with
-- signals arriving between any two.
use dei_chain.Base.{ℕ, zero, suc, ◌+◌, arith, ◌≡◌, refl, subst, Bool, true, false, if◌then◌else◌}

-- Where the controller stands in `while (!should_terminate) { if (sigusr1) { dump; sigusr1 = 0; }
-- pause(); }`.
pub data Point : Type 0 where
  at_while : Point  -- before the test of `should_terminate`
  at_if : Point  -- before the test of `sigusr1_received_controller`
  at_dump : Point  -- before `dump_ledger`
  at_reset : Point  -- before the flag is cleared
  at_pause : Point  -- before `pause`
  asleep : Point  -- in `pause`
  after_loop : Point

pub record Controller : Type 0 where
  pub point : Point
  pub should_terminate : Bool
  pub sigusr1_received : Bool
  pub dumps : ℕ

pub data Signal : Type 0 where
  sigint sigusr1 : Signal

-- The handler, and the return of `pause` after it.
unfoldable pub signal_handler : Signal → Controller → Controller
signal_handler sigint c = record c { should_terminate = true }
signal_handler sigusr1 c = record c { sigusr1_received = true }

abbrev after_signal : Point → Point
after_signal asleep = at_while
after_signal p = p

unfoldable pub deliver : Signal → Controller → Controller
unfolding signal_handler
deliver s c = record (signal_handler s c) { point = after_signal c.point }

abbrev step_at : Point → Controller → Controller
step_at at_while c = record c { point = if c.should_terminate then after_loop else at_if }
step_at at_if c = record c { point = if c.sigusr1_received then at_dump else at_pause }
step_at at_dump c = record c { point = at_reset; dumps = c.dumps + 1 }
step_at at_reset c = record c { point = at_pause; sigusr1_received = false }
step_at at_pause c = record c { point = asleep }
step_at asleep c = c
step_at after_loop c = c

-- One step of the program; in `pause` it stays where it is.
unfoldable pub step : Controller → Controller
step c = step_at c.point c

unfoldable pub steps : ℕ → Controller → Controller
unfolding step
steps zero c = c
steps (suc n) c = steps n (step c)

abbrev stopping_at : Point → Bool → ℕ → Controller
stopping_at p u d = record { point = p; should_terminate = true; sigusr1_received = u; dumps = d }

steps-after_loop :
    (n : ℕ) (u : Bool) (d : ℕ) → (steps n (stopping_at after_loop u d)).point ≡ after_loop
unfolding steps
steps-after_loop zero u d = refl
steps-after_loop (suc n) u d = steps-after_loop n u d

steps-asleep : (n : ℕ) (u : Bool) (d : ℕ) → (steps n (stopping_at asleep u d)).point ≡ asleep
unfolding steps
steps-asleep zero u d = refl
steps-asleep (suc n) u d = steps-asleep n u d

-- The points at which a signal that ends the program is noticed.
abbrev pub notices : Point → Bool
notices at_while = true
notices asleep = true
notices after_loop = true
notices p = false

steps-stopping_at :
    (p : Point) (u : Bool) (d n : ℕ)
    → ((steps (suc (suc (suc (suc (suc n))))) (stopping_at (after_signal p) u d)).point
        ≡ (if notices p then after_loop else asleep))
unfolding steps
steps-stopping_at at_while u d n = steps-after_loop n u d
steps-stopping_at at_if true d n = steps-asleep n false (d + 1)
steps-stopping_at at_if false d n = steps-asleep n false d
steps-stopping_at at_dump u d n = steps-asleep n false (d + 1)
steps-stopping_at at_reset u d n = steps-asleep n false d
steps-stopping_at at_pause u d n = steps-asleep n u d
steps-stopping_at asleep u d n = steps-after_loop n u d
steps-stopping_at after_loop u d n = steps-after_loop n u d

-- After SIGINT, and at least five steps with no further signal, the loop has ended exactly if the
-- signal came before the test of `should_terminate` or in `pause`. If it came between the two, the
-- controller sleeps.
pub steps-sigint :
    (c : Controller) (n : ℕ)
    → ((steps (5 + n) (deliver sigint c)).point ≡ (if notices c.point then after_loop else asleep))
unfolding deliver
steps-sigint c n =
    let five : suc (suc (suc (suc (suc n)))) ≡ 5 + n = omega arith in
    subst
      (λ k. (steps k (deliver sigint c)).point ≡ (if notices c.point then after_loop else asleep))
      five (steps-stopping_at c.point c.sigusr1_received c.dumps n)
