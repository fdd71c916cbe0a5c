-- ===== src/Logger/Log.antt =====
-- The functions of logger.c, for one process. The mutex makes each call one step among its threads.
use dei_chain.Base.{
  ℕ, Bool, true, false, Option, none, some, List, [], ◌∷◌, ◌++◌, length, take, ltb, if◌then◌else◌,
}
use dei_chain.Base.Text.{codes, decimal}

-- The terminal, the log file as it is after a flush, and whether `log_file` is not null.
pub record Log : Type 0 where
  pub console : List ℕ
  pub file : List ℕ
  pub opened : Bool

-- `opened` is the outcome of `fopen` with "w", which empties the file. The result is 0 or -1; `none`
-- stands for -1.
unfoldable pub init_logger : Bool → Log → Option Log
init_logger opened log = if opened then some (record log { file = []; opened = true }) else none

unfoldable pub close_logger : Log → Log
close_logger log = record log { opened = false }

-- "%s %s\n"
abbrev pub stamped : List ℕ → List ℕ → List ℕ
stamped timestamp text = timestamp ++ (b' ' ∷ (text ++ b'\n' ∷ []))

-- `printf`, and `fprintf` if the file is open.
unfoldable pub print : List ℕ → Log → Log
print bytes log = record log {
  console = log.console ++ bytes;
  file = if log.opened then log.file ++ bytes else log.file;
}

-- The size of the array that `vsprintf` writes to, which does not bound what it writes.
abbrev pub message_size : ℕ
message_size = 1024

-- `vsprintf` of a format and its arguments, `text` being their bytes: `none` if they and the NUL do not
-- fit into the array, and the behaviour is undefined.
unfoldable pub vsprintf : List ℕ → Option (List ℕ)
vsprintf text = if ltb (length text) message_size then some text else none

-- A message that `line` makes a line of.
unfoldable pub logged : (List ℕ → List ℕ) → List ℕ → Log → Option Log
unfolding vsprintf print
logged line text log = elim (vsprintf text) [
  | none ↦ none
  | some message ↦ some (print (line message) log)
]

unfoldable pub log_message : List ℕ → List ℕ → Log → Option Log
log_message timestamp text log = logged (stamped timestamp) text log

-- The loop over the messages of `log_atomic_messages`.
unfoldable pub log_atomic_messages : List ℕ → List (List ℕ) → Log → Log
unfolding print
log_atomic_messages timestamp [] log = log
log_atomic_messages timestamp (text ∷ texts) log =
    log_atomic_messages timestamp texts (print (stamped timestamp text) log)

-- `snprintf(full_message, 1100, "MINER %d: %s", …)`, and "VALIDATOR %d: %s".
unfoldable pub prefixed : List ℕ → ℕ → List ℕ → List ℕ
prefixed name id message = take 1099 (name ++ (decimal id ++ (codes ": " ++ message)))

unfoldable pub log_miner_message : ℕ → List ℕ → List ℕ → Log → Option Log
log_miner_message miner_id timestamp text log =
    logged (λ message. stamped timestamp (prefixed (codes "MINER ") miner_id message)) text log

unfoldable pub log_validator_message : ℕ → List ℕ → List ℕ → Log → Option Log
log_validator_message validator_id timestamp text log =
    logged (λ message. stamped timestamp (prefixed (codes "VALIDATOR ") validator_id message)) text
      log
