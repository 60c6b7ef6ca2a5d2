-- ===== src/Config/Forks.antt =====
-- config.go: forks, once active, stay active.
use evm_firehose_tracer_go.Prelude.{ℕ, ◌≤◌, Bool, true, false, ◌||◌, ◌&&◌, Option, some, ◌≡◌, arith}
use evm_firehose_tracer_go.Prelude.Int.{ℤ, gtb_ℤ}
use evm_firehose_tracer_go.Config.{
  ChainConfig, Rules, rules, is_timestamp_forked, is_block_forked, is_shanghai, is_cancun,
  is_prague, is_verkle,
}

is_timestamp_forked_mono :
    (fork : Option ℕ) (t u : ℕ)
    → t ≤ u
    → is_timestamp_forked fork t ≡ true
    → is_timestamp_forked fork u ≡ true
unfolding is_timestamp_forked
is_timestamp_forked_mono fork t u h e = ground arith

is_block_forked_mono :
    (fork : Option ℤ) (n m : ℤ)
    → gtb_ℤ n m ≡ false
    → is_block_forked fork (some n) ≡ true
    → is_block_forked fork (some m) ≡ true
unfolding is_block_forked
is_block_forked_mono fork n m h e = ground arith

-- Each fork of the first rules is one of the second.
abbrev pub Extends : Rules → Rules → Type 0
Extends r s =
    ((r.is_shanghai && s.is_shanghai) ≡ r.is_shanghai)
    × ((r.is_cancun && s.is_cancun) ≡ r.is_cancun)
    × ((r.is_prague && s.is_prague) ≡ r.is_prague)
    × ((r.is_verkle && s.is_verkle) ≡ r.is_verkle)

either_extends :
    (times : Option ℕ) (blocks : Option ℤ) (n m : ℤ) (t u : ℕ)
    → gtb_ℤ n m ≡ false
    → t ≤ u
    → ((is_timestamp_forked times t || is_block_forked blocks (some n))
        && (is_timestamp_forked times u || is_block_forked blocks (some m)))
      ≡ (is_timestamp_forked times t || is_block_forked blocks (some n))
either_extends times blocks n m t u h later =
    ground (arith, is_timestamp_forked_mono times t u later, is_block_forked_mono blocks n m h)

-- A fork that is active at a block is active at every block with a number and a timestamp that are
-- not smaller.
pub rules-Extends :
    (c : ChainConfig) (n m : ℤ) (merge merge' : Bool) (t u : ℕ)
    → gtb_ℤ n m ≡ false
    → t ≤ u
    → Extends (rules c (some n) merge t) (rules c (some m) merge' u)
unfolding rules is_shanghai is_cancun is_prague is_verkle
rules-Extends c n m merge merge' t u h later = (
  either_extends c.shanghai_time c.shanghai_block n m t u h later,
  either_extends c.cancun_time c.cancun_block n m t u h later,
  either_extends c.prague_time c.prague_block n m t u h later,
  ground (arith, is_timestamp_forked_mono c.verkle_time t u later),
)
