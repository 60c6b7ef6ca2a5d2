-- ===== src/Keccak.antt =====
-- keccak_filter.go: the KECCAK256 preimages that explain a storage slot. A [32]byte is a byte
-- string; arrays of one length are ordered by bytes.Compare as the numbers that they stand for.
pub mod Search
pub mod Filter
pub mod Growth
pub mod Closure
use evm_firehose_tracer_go.Prelude.{
  ℕ, zero, suc, ◌+◌, ◌-◌, ◌/◌, ◌%◌, ◌^◌, Bool, true, false, not, ◌&&◌, List, [], ◌∷◌, ◌++◌, Option,
  none, some, length, get_elem?, take, drop, map, ltb, leb, ◌==◌, if◌then◌else◌, is_empty,
}
use evm_firehose_tracer_go.Prelude.Bytes.{Bytes, bytes_eq, from_bytes}
use evm_firehose_tracer_go.Prelude.Sort.{sort_by}
use evm_firehose_tracer_go.Pb.{Call, StorageChange}
use evm_firehose_tracer_go.Hex.{encode_to_string}

-- A KECCAK256 preimage as it is kept until the transaction ends.
pub record RecordedPreimage : Type 0 where
  pub call_index : ℕ
  pub hash : Bytes
  pub preimage : Bytes

abbrev pub keccak_filter_max_depth : ℕ
keccak_filter_max_depth = 16

-- sort.Search: the loop halves [i, j) until it is empty; `n` rounds are enough.
unfoldable pub search_loop : ℕ → (ℕ → Bool) → ℕ → ℕ → ℕ
search_loop zero f i j = i
search_loop (suc fuel) f i j = elim (ltb i j) [
  | true ↦ elim (f ((i + j) / 2)) [
    | true ↦ search_loop fuel f i ((i + j) / 2)
    | false ↦ search_loop fuel f ((i + j) / 2 + 1) j
  ]
  | false ↦ i
]

unfoldable pub sort_search : ℕ → (ℕ → Bool) → ℕ
unfolding search_loop
sort_search n f = search_loop n f 0 n

-- `bytes.Compare(sorted[i], key) > 0`
unfoldable pub is_above : List Bytes → Bytes → ℕ → Bool
is_above sorted key i = elim (get_elem? sorted i) [
  | none ↦ true
  | some hash ↦ ltb (from_bytes key) (from_bytes hash)
]

-- Subtraction of uint256 values, and `IsUint64` of the distance.
unfoldable pub base_if_near : Bytes → Option Bytes → Option Bytes
base_if_near key none = none
base_if_near key (some base) =
    if ltb ((from_bytes key + 2 ^ 256 - from_bytes base) % 2 ^ 256) (2 ^ 64)
    then some base
    else none

unfoldable pub keccak_slot_base : List Bytes → Bytes → Option Bytes
keccak_slot_base sorted key =
    let i = sort_search (length sorted) (is_above sorted key) in
    if i == 0 then none else base_if_near key (get_elem? sorted (i - 1))

-- The 32-byte words of a preimage; its length is fuel enough.
unfoldable pub words_fuel : ℕ → Bytes → List Bytes
words_fuel zero preimage = []
words_fuel (suc fuel) preimage = elim (leb 32 (length preimage)) [
  | true ↦ take 32 preimage ∷ words_fuel fuel (drop 32 preimage)
  | false ↦ []
]

unfoldable pub inner_keccak_hash_candidates : Bytes → List Bytes
unfolding words_fuel
inner_keccak_hash_candidates preimage =
    words_fuel (length preimage) preimage
    ++ (if ltb 32 (length preimage) && not (length preimage % 32 == 0)
        then drop (length preimage - 32) preimage ∷ []
        else [])

unfoldable pub contains : List Bytes → Bytes → Bool
contains [] h = false
contains (x ∷ xs) h = if bytes_eq x h then true else contains xs h

unfoldable pub lookup : Bytes → List (Bytes × Bytes) → Option Bytes
lookup k [] = none
lookup k ((j, v) ∷ m) = if bytes_eq j k then some v else lookup k m

-- The first preimage recorded for a hash is the one that counts.
unfoldable pub insert_new : Bytes → Bytes → List (Bytes × Bytes) → List (Bytes × Bytes)
insert_new k v [] = (k, v) ∷ []
insert_new k v ((j, w) ∷ m) = if bytes_eq j k then (j, w) ∷ m else (j, w) ∷ insert_new k v m

unfoldable pub preimages_of : List (Bytes × Bytes) → List RecordedPreimage → List (Bytes × Bytes)
unfolding insert_new
preimages_of m [] = m
preimages_of m (r ∷ rs) = preimages_of (insert_new r.hash r.preimage m) rs

abbrev pub or_empty : Option Bytes → Bytes
or_empty none = []
or_empty (some bs) = bs

-- The set of kept hashes with the list that new ones are added to.
unfoldable pub keep : Bytes → List Bytes × List Bytes → List Bytes × List Bytes
unfolding contains
keep h (kept, into) = if contains kept h then (kept, into) else (kept ++ h ∷ [], into ++ h ∷ [])

unfoldable pub keep_found : Option Bytes → List Bytes × List Bytes → List Bytes × List Bytes
unfolding keep
keep_found none st = st
keep_found (some h) st = keep h st

-- Each word that points at a recorded hash keeps that hash.
unfoldable pub keep_words :
    List Bytes → List Bytes → List Bytes × List Bytes → List Bytes × List Bytes
unfolding keep_found keccak_slot_base
keep_words sorted [] st = st
keep_words sorted (w ∷ ws) st = keep_words sorted ws (keep_found (keccak_slot_base sorted w) st)

-- The storage keys of 32 bytes, call by call.
unfoldable pub slot_keys : List StorageChange → List Bytes
slot_keys [] = []
slot_keys (c ∷ cs) = if length c.key == 32 then c.key ∷ slot_keys cs else slot_keys cs

unfoldable pub all_slot_keys : List Call → List Bytes
unfolding slot_keys
all_slot_keys [] = []
all_slot_keys (c ∷ cs) = slot_keys c.storage_changes ++ all_slot_keys cs

-- One round over the frontier.
unfoldable pub expand :
    List Bytes
    → List (Bytes × Bytes)
    → List Bytes
    → List Bytes × List Bytes
    → List Bytes × List Bytes
unfolding keep_words inner_keccak_hash_candidates lookup
expand sorted preimages [] st = st
expand sorted preimages (h ∷ hs) st =
    expand sorted preimages hs
      (keep_words sorted (inner_keccak_hash_candidates (or_empty (lookup h preimages))) st)

-- The rounds, at most `n` of them; the next frontier is what a round added.
unfoldable pub rounds : ℕ → List Bytes → List (Bytes × Bytes) → List Bytes → List Bytes → List Bytes
unfolding expand
rounds zero sorted preimages kept frontier = kept
rounds (suc n) sorted preimages kept frontier = elim (is_empty frontier) [
  | true ↦ kept
  | false ↦
      rounds n sorted preimages (expand sorted preimages frontier (kept, [])).0
        (expand sorted preimages frontier (kept, [])).1
]

abbrev pub keys : List (Bytes × Bytes) → List Bytes
keys = map (λ entry. entry.0)

unfoldable pub storage_slot_hashes : List Call → List RecordedPreimage → List Bytes
storage_slot_hashes calls recorded =
    let preimages = preimages_of [] recorded in
    let sorted = sort_by from_bytes (keys preimages) in
    let seeds = keep_words sorted (all_slot_keys calls) ([], []) in
    rounds keccak_filter_max_depth sorted preimages seeds.0 seeds.1

-- The hex-encoded entry, unless the call has one for that hash.
unfoldable pub add_preimage : RecordedPreimage → Call → Call
unfolding insert_new encode_to_string
add_preimage r call = record call {
  keccak_preimages =
      insert_new (encode_to_string r.hash) (encode_to_string r.preimage) call.keccak_preimages;
}

unfoldable pub has_index : ℕ → List Call → Bool
has_index i [] = false
has_index i (c ∷ cs) = if c.index == i then true else has_index i cs

-- The map from indexes to calls holds the last call of an index.
unfoldable pub modify_by_index : ℕ → (Call → Call) → List Call → List Call
unfolding has_index
modify_by_index i f [] = []
modify_by_index i f (c ∷ cs) =
    if c.index == i && not (has_index i cs) then f c ∷ cs else c ∷ modify_by_index i f cs

unfoldable pub attach_kept : List Bytes → List RecordedPreimage → List Call → List Call
attach_kept kept [] calls = calls
attach_kept kept (r ∷ rs) calls =
    attach_kept kept rs
      (if contains kept r.hash then modify_by_index r.call_index (add_preimage r) calls else calls)

unfoldable pub attach_storage_slot_preimages : List Call → List RecordedPreimage → List Call
attach_storage_slot_preimages calls recorded =
    if is_empty recorded
    then calls
    else let kept = storage_slot_hashes calls recorded in
      if is_empty kept then calls else attach_kept kept recorded calls
