-- ===== src/Tests/TurnRuns.antt =====
-- A turn of a validator's loop at concrete inputs.
use dei_chain.Base.{[]}
use dei_chain.Base.Int.{pos}
use dei_chain.Validator.Manage.{in_parent}
use dei_chain.Validator.Age.{age_transaction_pool}
use dei_chain.Validator.Process.{Shared, process_block}
use dei_chain.Validator.Turn.{Outside, Validator, data_ready}
use dei_chain.Tests.Fixtures.{digest, pool, config, mined_at, memory, shared}
use dei_chain.Tests.ValidatorRuns.{manager}
use dei_chain.Tests.WireRuns.{inputs, arriving}

abbrev pub outside : Outside
outside = record {
  others = λ s. s;
  managed_at = pos 9;
  fork = in_parent;
  aged_at = pos 9;
  selected = data_ready;
  inputs = inputs;
}

abbrev pub before : Validator
before = record { manager = manager; last_age_update = pos 8; shared = shared; fd = arriving }

abbrev committed : Shared
committed =
    (process_block digest memory (mined_at 1000 3) config
      (record shared { pool = (age_transaction_pool (pos 9) pool (pos 8)).0 })).1

abbrev after_turns : Validator
after_turns = record {
  manager = manager;
  last_age_update = pos 9;
  shared = committed;
  fd = record { stream = []; calls = [] };
}

-- A turn with a block, and one without.
