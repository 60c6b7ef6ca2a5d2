-- ===== src/FlashBlocks/Added.antt =====
-- What is added to the lists of a block, and a block with it.
use evm_firehose_tracer_go.Prelude.{
  ◌≡◌, refl, List, [], ◌++◌, Option, none, some, arith, append_assoc, append-nil,
}
use evm_firehose_tracer_go.Pb.{Call, TransactionTrace, Block, BalanceChange, CodeChange}

-- What hooks add to the lists of a block.
pub record Added : Type 0 where
  pub traces : List TransactionTrace
  pub system_calls : List Call
  pub balance_changes : List BalanceChange
  pub code_changes : List CodeChange

abbrev pub nothing : Added
nothing = record { traces = []; system_calls = []; balance_changes = []; code_changes = [] }

abbrev pub extend : Option Block → Added → Option Block
extend none added = none
extend (some b) added = some (record b {
  transaction_traces = b.transaction_traces ++ added.traces;
  system_calls = b.system_calls ++ added.system_calls;
  balance_changes = b.balance_changes ++ added.balance_changes;
  code_changes = b.code_changes ++ added.code_changes;
})

abbrev pub both : Added → Added → Added
both x y = record {
  traces = x.traces ++ y.traces;
  system_calls = x.system_calls ++ y.system_calls;
  balance_changes = x.balance_changes ++ y.balance_changes;
  code_changes = x.code_changes ++ y.code_changes;
}

pub extend-nothing : (o : Option Block) → extend o nothing ≡ o
extend-nothing none = refl
extend-nothing (some b) = ground (
  arith,
  append-nil b.transaction_traces,
  append-nil b.system_calls,
  append-nil b.balance_changes,
  append-nil b.code_changes,
)

module _ (b : Block) where
  pub extend-traces :
      (xs : List TransactionTrace)
      → extend (some b) (record nothing { traces = xs })
        ≡ some (record b { transaction_traces = b.transaction_traces ++ xs })
  extend-traces xs =
      ground
        (arith, append-nil b.system_calls, append-nil b.balance_changes, append-nil b.code_changes)

  pub extend-system_calls :
      (xs : List Call)
      → extend (some b) (record nothing { system_calls = xs })
        ≡ some (record b { system_calls = b.system_calls ++ xs })
  extend-system_calls xs = ground (
    arith,
    append-nil b.transaction_traces,
    append-nil b.balance_changes,
    append-nil b.code_changes,
  )

  pub extend-balance_changes :
      (xs : List BalanceChange)
      → extend (some b) (record nothing { balance_changes = xs })
        ≡ some (record b { balance_changes = b.balance_changes ++ xs })
  extend-balance_changes xs =
      ground (
        arith,
        append-nil b.transaction_traces,
        append-nil b.system_calls,
        append-nil b.code_changes,
      )

  pub extend-code_changes :
      (xs : List CodeChange)
      → extend (some b) (record nothing { code_changes = xs })
        ≡ some (record b { code_changes = b.code_changes ++ xs })
  extend-code_changes xs = ground (
    arith,
    append-nil b.transaction_traces,
    append-nil b.system_calls,
    append-nil b.balance_changes,
  )

pub extend-both : (o : Option Block) (x y : Added) → extend (extend o x) y ≡ extend o (both x y)
extend-both none x y = refl
extend-both (some b) x y = ground (
  arith,
  append_assoc b.transaction_traces x.traces y.traces,
  append_assoc b.system_calls x.system_calls y.system_calls,
  append_assoc b.balance_changes x.balance_changes y.balance_changes,
  append_assoc b.code_changes x.code_changes y.code_changes,
)
