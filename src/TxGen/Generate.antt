-- ===== src/TxGen/Generate.antt =====
-- `generate_transaction` and the arguments of `main` in txgen.c. The process ID, the random numbers,
-- the clock and what the stack held are the environment's.
use dei_chain.Base.{
  ℕ, ◌+◌, ◌%◌, ◌&&◌, ◌||◌, Option, none, some, List, ◌++◌, if◌then◌else◌, not, ◌==◌,
}
use dei_chain.Base.Int.{ℤ, pos, leb_ℤ, ltb_ℤ}
use dei_chain.Base.Text.{codes, decimal, snprintf}
use dei_chain.Data.{Transaction, tx_id_len}

-- "TX-%d-%d"
unfoldable pub transaction_name : ℕ → ℕ → List ℕ
unfolding decimal
transaction_name pid serial = codes "TX-" ++ (decimal pid ++ (codes "-" ++ decimal serial))

-- One call: `rand_reward` is the `rand()` for the reward, `value` the pattern of the random value,
-- `stack` what the array held. The result is the transaction and the new `transaction_counter`.
unfoldable pub generate_transaction : ℤ → ℕ → ℕ → ℕ → ℕ → ℤ → List ℕ → Transaction × ℕ
unfolding transaction_name snprintf
generate_transaction reward pid counter rand_reward value now stack = (
  record {
    tx_id = snprintf tx_id_len (transaction_name pid counter) stack;
    reward =
        if leb_ℤ (pos 1) reward && leb_ℤ reward (pos 3) then reward else pos (1 + rand_reward % 3);
    value = value;
    timestamp = now;
  },
  counter + 1,
)

-- The arguments of `main` after `atoi`: the reward and the sleep time in milliseconds, if they are
-- within their ranges.
unfoldable pub check_arguments : ℕ → ℤ → ℤ → Option (ℤ × ℤ)
check_arguments argc reward sleep_time =
    if not (argc == 3)
    then none
    else if ltb_ℤ reward (pos 1) || ltb_ℤ (pos 3) reward
    then none
    else if ltb_ℤ sleep_time (pos 200) || ltb_ℤ (pos 3000) sleep_time
    then none
    else some (reward, sleep_time)
