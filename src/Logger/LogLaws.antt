-- ===== src/Logger/LogLaws.antt =====
-- The log file holds what the terminal shows, and no message is cut.
use mathlib.Core.Option.{some-injective}
use mathlib.Core.List.{append-nil}
use dei_chain.Base.{
  ℕ, zero, suc, ◌+◌, ◌*◌, ◌/◌, ◌^◌, ◌≤◌, ◌<◌, ◌≡◌, refl, sym, ap, ◌∙◌, subst, true, Option, none,
  some, List, [], ◌∷◌, ◌++◌, append_assoc, length, length-append, take-le, lt→ltb, ◌%◌, arith, inl,
  inr, Option-cases,
}
use dei_chain.Base.Text.{codes, decimal, digits_of}
use dei_chain.Logger.Log.{
  Log, init_logger, stamped, print, vsprintf, message_size, prefixed, logged, log_message,
  log_atomic_messages, log_miner_message, log_validator_message,
}

-- A call of the logger between its opening and its closing.
pub data Call : Type 0 where
  message : List ℕ → List ℕ → Call
  atomic : List ℕ → List (List ℕ) → Call
  miner validator : ℕ → List ℕ → List ℕ → Call

unfoldable pub call : Call → Log → Option Log
call (message timestamp text) log = log_message timestamp text log
call (atomic timestamp texts) log = some (log_atomic_messages timestamp texts log)
call (miner id timestamp text) log = log_miner_message id timestamp text log
call (validator id timestamp text) log = log_validator_message id timestamp text log

unfoldable pub calls : List Call → Log → Option Log
calls [] log = some log
calls (c ∷ cs) log = elim (call c log) [ none ↦ none | some log' ↦ calls cs log' ]

-- What the terminal shows behind `before` is what the file holds.
pub record Mirrors (before : List ℕ) (log : Log) : Type 0 where
  pub shown : log.console ≡ before ++ log.file
  pub opened : log.opened ≡ true

print-Mirrors :
    (before bytes : List ℕ) (log : Log) → Mirrors before log → Mirrors before (print bytes log)
unfolding print
print-Mirrors before bytes log h = record {
  shown = rw h.opened (ap (λ l. l ++ bytes) h.shown ∙ append_assoc before log.file bytes);
  opened = h.opened;
}

atomic-Mirrors :
    (before timestamp : List ℕ) (texts : List (List ℕ)) (log : Log)
    → Mirrors before log
    → Mirrors before (log_atomic_messages timestamp texts log)
unfolding log_atomic_messages
atomic-Mirrors before timestamp [] log h = h
atomic-Mirrors before timestamp (text ∷ texts) log h =
    atomic-Mirrors before timestamp texts (print (stamped timestamp text) log)
      (print-Mirrors before (stamped timestamp text) log h)

logged-Mirrors :
    (before : List ℕ) (line : List ℕ → List ℕ) (text : List ℕ) (log log' : Log)
    → Mirrors before log
    → logged line text log ≡ some log'
    → Mirrors before log'
unfolding logged
logged-Mirrors before line text log log' h e = elim (Option-cases (vsprintf text)) [
  | inl over ↦ cc (rw (over, logged) at e)
  | inr (m, fits) ↦
      subst (Mirrors before) (some-injective _ _ (rw (fits, logged) at e))
        (print-Mirrors before (line m) log h)
]

call-Mirrors :
    (before : List ℕ) (c : Call) (log log' : Log)
    → Mirrors before log
    → call c log ≡ some log'
    → Mirrors before log'
unfolding call log_message log_miner_message log_validator_message
call-Mirrors before (message timestamp text) log log' h e =
    logged-Mirrors before _ text log log' h e
call-Mirrors before (atomic timestamp texts) log log' h e =
    subst (Mirrors before) (some-injective _ _ e) (atomic-Mirrors before timestamp texts log h)
call-Mirrors before (miner id timestamp text) log log' h e =
    logged-Mirrors before _ text log log' h e
call-Mirrors before (validator id timestamp text) log log' h e =
    logged-Mirrors before _ text log log' h e

calls-Mirrors :
    (before : List ℕ) (cs : List Call) (log log' : Log)
    → Mirrors before log
    → calls cs log ≡ some log'
    → Mirrors before log'
unfolding calls
calls-Mirrors before [] log log' h e = subst (Mirrors before) (some-injective _ _ e) h
calls-Mirrors before (c ∷ cs) log log' h e = elim (Option-cases (call c log)) [
  | inl over ↦ cc (rw (over, calls) at e)
  | inr (log₁, done) ↦
      calls-Mirrors before cs log₁ log' (call-Mirrors before c log log₁ h done)
        (rw (done, calls) at e)
]

-- After `init_logger` has opened the file, and any calls of the four logging functions whose messages
-- fit, the file holds exactly what the terminal has shown since then.
pub calls-init :
    (cs : List Call) (log start end : Log)
    → init_logger true log ≡ some start
    → calls cs start ≡ some end
    → end.console ≡ log.console ++ end.file
unfolding init_logger
calls-init cs log start end opened run =
    (calls-Mirrors log.console cs start end
      (subst (Mirrors log.console) (some-injective _ _ opened)
        (record { shown = sym (append-nil log.console); opened = refl }))
      run).shown

-- Powers of ten.
abbrev tens : ℕ → ℕ
tens zero = 1
tens (suc k) = 10 * tens k

length-digits_of : (fuel n k : ℕ) → n < 10 * tens k → length (digits_of fuel n) ≤ suc k
unfolding digits_of
length-digits_of zero n k h = omega arith
length-digits_of (suc fuel) n zero h = ground arith
length-digits_of (suc fuel) n (suc k) h = ground (
  arith,
  length-digits_of fuel (n / 10) k (omega arith),
  length-append (digits_of fuel (n / 10)) ((b'0' + n % 10) ∷ []),
)

length-decimal : (n : ℕ) → n < 2 ^ 31 → length (decimal n) ≤ 10
unfolding decimal
length-decimal n h = length-digits_of (n + 1) n 9 (omega arith)

prefixed-whole :
    (name : List ℕ) (id : ℕ) (text : List ℕ)
    → length name ≤ 10
    → id < 2 ^ 31
    → length text < message_size
    → prefixed name id text ≡ name ++ (decimal id ++ (codes ": " ++ text))
unfolding prefixed
prefixed-whole name id text short small fits =
    take-le 1099 (name ++ (decimal id ++ (codes ": " ++ text))) (
      omega (
        arith,
        length-append name (decimal id ++ (codes ": " ++ text)),
        length-append (decimal id) (codes ": " ++ text),
        length-decimal id small,
      ))

logged_fits :
    (line : List ℕ → List ℕ) (text : List ℕ) (log : Log)
    → length text < message_size
    → logged line text log ≡ some (print (line text) log)
unfolding logged vsprintf
logged_fits line text log fits = ground (arith, lt→ltb (length text) message_size fits)

-- A message of a miner or a validator that fits into its array is written whole, with its prefix:
-- the second array always has room for both. The number is an `int`.
pub log_message-whole :
    (id : ℕ) (timestamp text : List ℕ) (log : Log)
    → id < 2 ^ 31
    → length text < message_size
    → (log_miner_message id timestamp text log
        ≡ some (
            print (stamped timestamp (codes "MINER " ++ (decimal id ++ (codes ": " ++ text)))) log))
      × (log_validator_message id timestamp text log
          ≡ some (
              print
                (stamped timestamp (codes "VALIDATOR " ++ (decimal id ++ (codes ": " ++ text))))
                log))
unfolding log_miner_message log_validator_message
log_message-whole id timestamp text log small fits = (
  logged_fits (λ m. stamped timestamp (prefixed (codes "MINER ") id m)) text log fits
      ∙ ap (λ l. some (print (stamped timestamp l) log))
          (prefixed-whole (codes "MINER ") id text (omega arith) small fits),
  logged_fits (λ m. stamped timestamp (prefixed (codes "VALIDATOR ") id m)) text log fits
      ∙ ap (λ l. some (print (stamped timestamp l) log))
          (prefixed-whole (codes "VALIDATOR ") id text (omega arith) small fits),
)
