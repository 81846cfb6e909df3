-- ===== src/Funding.antt =====
-- packages/dappdata/src/funding/index.ts: what a folder costs and how it is paid for. A budget's
-- numbers are whole. `getDepthForSize` and `getStampUsage` are parameters, the payer's provider is a set
-- of calls that may throw, and amounts, which are `bigint` in the source, are natural numbers.
pub mod Size
pub mod Cost
pub mod Lifetime
pub mod Abi
pub mod Confirm
pub mod Purchase
pub mod Extension
pub mod Provider
mod Examples
use dappdata.Base.{
  ℕ, zero, suc, ◌+◌, ◌-◌, ◌*◌, ◌/◌, ◌^◌, ◌≡◌, max, Bool, true, false, not, ◌&&◌, ◌||◌, String,
  Option, none, some, List, [], ◌∷◌, ltb, leb, ◌==◌, if◌then◌else◌, Result, ok, err, Exec, continue,
  ◌>>=◌, ◌>>◌, pure, lift,
}
use dappdata.Errors.{Bytes, Failure, dapp_data_error, unsupported}
use dappdata.Transport.{Transport, ChainState, BatchStatus}

abbrev pub bucket_depth : ℕ
bucket_depth = 16

abbrev pub chunk_bytes : ℕ
chunk_bytes = 4096

-- `Math.ceil(a / b)` of whole numbers.
abbrev pub ceil_div : ℕ → ℕ → ℕ
ceil_div a b = (a + (b - 1)) / b

-- The loop over the levels of a blob's tree: the chunks above a level.
unfoldable pub tree_above : ℕ → ℕ → ℕ
tree_above zero level = 0
tree_above (suc fuel) level =
    let next = ceil_div level 128 in
    let above = tree_above fuel next in if ltb 1 level then next + above else 0

abbrev pub leaves_of : ℕ → ℕ
leaves_of bytes = ceil_div (bytes + 32) 4096

unfoldable pub chunks_per_write : ℕ → ℕ
unfolding tree_above
chunks_per_write bytes =
    if leb bytes 4064
    then 1
    else 1 + leaves_of bytes + tree_above (leaves_of bytes) (leaves_of bytes)

pub record WriteBudget : Type 0 where
  pub writes_per_day : ℕ
  pub retention_days : ℕ
  pub bytes_per_write : Option ℕ

pub record Quote : Type 0 where
  pub depth : ℕ
  pub amount_per_chunk : ℕ
  pub total : ℕ

pub record FundOptions : Type 0 where
  pub owner : String
  pub budget : Option WriteBudget
  pub depth : Option ℕ
  pub amount_per_chunk : Option ℕ
  pub immutable : Option Bool

pub record FundResult : Type 0 where
  pub batch_id : String
  pub depth : ℕ
  pub amount_per_chunk : ℕ
  pub total_cost : ℕ
  pub transaction_hash : String

-- `ttlSource`
pub data TtlSource : Type 0 where
  contract node : TtlSource

-- `daysLeft`, the lifetime in days, is `ttl_seconds` over 86,400.
pub record Health (U : Type 0) : Type 0 where
  pub usable : Bool
  pub ttl_seconds : ℕ
  pub usage : U
  pub depth : ℕ
  pub immutable : Bool
  pub ttl_source : TtlSource

pub record CreateBatch : Type 0 where
  pub owner : String
  pub amount : ℕ
  pub depth : ℕ
  pub bucket_depth : ℕ
  pub nonce : String
  pub immutable : Bool

-- The calls that `funding` makes through the payer's provider, and what it takes from its libraries:
-- `allowance` reads what the postage contract may spend, `receipt` is the batch id of the transaction's
-- event, if it has one, once the transaction is there. `ids_differ` compares an event's batch id with
-- the expected one, letter case and `0x` aside.
pub record Payer (W : Type 0) : Type 0 where
  pub from : Exec W Failure String
  pub allowance : String → Exec W Failure ℕ
  pub approve : ℕ → Exec W Failure String
  pub create_batch : CreateBatch → Exec W Failure String
  pub top_up : String → ℕ → Exec W Failure String
  pub receipt : String → Exec W Failure (Option (Option String))
  pub remaining_and_price : String → Exec W Failure (ℕ × ℕ)
  pub random_nonce : Exec W Failure String
  pub batch_id_for : String → String → String
  pub ids_differ : String → String → Bool

abbrev pub or_value : {A : Type 0} → Option A → A → A
or_value none a = a
or_value (some b) a = b

module _ {W : Type 0} (t : Transport W) (payer : Payer W) (block_seconds : ℕ)
    (depth_for_size : ℕ → ℕ) where
  unfoldable pub chunks_of : WriteBudget → ℕ
  unfolding chunks_per_write
  chunks_of budget =
      budget.writes_per_day
      * budget.retention_days
      * (chunks_per_write (or_value budget.bytes_per_write 0) + 1)

  unfoldable pub quote_at : WriteBudget → ChainState → Quote
  unfolding chunks_of
  quote_at budget state =
      let depth = max 17 (depth_for_size (chunks_of budget * chunk_bytes)) in
      let amount = state.current_price * ceil_div (budget.retention_days * 86400) block_seconds in
      record { depth = depth; amount_per_chunk = amount; total = amount * 2 ^ depth }

  unfoldable pub quote : WriteBudget → Exec W Failure Quote
  unfolding quote_at
  quote budget =
      if budget.writes_per_day == 0 || budget.retention_days == 0
      then lift (err (dapp_data_error unsupported))
      else (do state ← t.get_chain_state; pure (quote_at budget state))

  -- Approve only what is missing.
  unfoldable pub approve_missing : ℕ → ℕ → Exec W Failure (Unit {0})
  approve_missing total allowance =
      if ltb allowance total then (do payer.approve total; pure tt) else pure tt

  unfoldable pub check_receipt : String → Option String → Exec W Failure (Unit {0})
  check_receipt expected none = pure tt
  check_receipt expected (some emitted) =
      if payer.ids_differ emitted expected
      then lift (err (dapp_data_error unsupported))
      else pure tt

  unfoldable pub on_receipt :
      Exec W Failure (Unit {0}) → String → Option (Option String) → Exec W Failure (Unit {0})
  unfolding check_receipt
  on_receipt try_again expected none = try_again
  on_receipt try_again expected (some emitted) = check_receipt expected emitted

  -- `attempts` looks at the receipt are left.
  unfoldable pub confirm_in : ℕ → String → String → Exec W Failure (Unit {0})
  unfolding on_receipt
  confirm_in zero hash expected = lift (err (dapp_data_error unsupported))
  confirm_in (suc attempts) hash expected = do
    result ← payer.receipt hash
    on_receipt (confirm_in attempts hash expected) expected result

  unfoldable pub confirm : String → String → Exec W Failure (Unit {0})
  unfolding confirm_in
  confirm hash expected = confirm_in 90 hash expected

  quoted : FundOptions → Option WriteBudget → Exec W Failure (ℕ × ℕ)
  unfolding quote
  quoted options none = lift (err (dapp_data_error unsupported))
  quoted options (some budget) = do
    q ← quote budget
    pure (or_value options.depth q.depth, or_value options.amount_per_chunk q.amount_per_chunk)

  unfoldable pub to_buy : FundOptions → Option ℕ → Option ℕ → Exec W Failure (ℕ × ℕ)
  unfolding quoted
  to_buy options (some depth) (some amount) = pure (depth, amount)
  to_buy options depth amount = quoted options options.budget

  unfoldable pub buy : String → ℕ × ℕ → Exec W Failure FundResult
  unfolding approve_missing confirm
  buy owner (depth, amount) = do
    let total = amount * 2 ^ depth
    from ← payer.from
    allowance ← payer.allowance from
    approve_missing total allowance
    nonce ← payer.random_nonce
    let batch_id = payer.batch_id_for from nonce
    hash ← payer.create_batch (record {
      owner = owner;
      amount = amount;
      depth = depth;
      bucket_depth = bucket_depth;
      nonce = nonce;
      immutable = true;
    })
    confirm hash batch_id
    pure (record {
      batch_id = batch_id;
      depth = depth;
      amount_per_chunk = amount;
      total_cost = total;
      transaction_hash = hash;
    })

  unfoldable pub fund : FundOptions → Exec W Failure FundResult
  unfolding to_buy buy
  fund options =
      if or_value options.immutable true
      then (do
        bought ← to_buy options options.depth options.amount_per_chunk
        buy options.owner bought)
      else lift (err (dapp_data_error unsupported))

  pub depth_of : Option BatchStatus → ℕ
  depth_of none = 20
  depth_of (some batch) = batch.depth

  unfoldable pub top_up : String → ℕ → Exec W Failure String
  unfolding approve_missing depth_of
  top_up batch_id amount = do
    batch ← t.get_batch batch_id
    from ← payer.from
    allowance ← payer.allowance from
    approve_missing (amount * 2 ^ depth_of batch) allowance
    payer.top_up batch_id amount

  -- The lifetime by the contract, or the node's if a call throws or the price is 0.
  unfoldable pub lifetime : ℕ → Result Failure (ℕ × ℕ) → ℕ × TtlSource
  lifetime by_node (ok (remaining, price)) =
      if ltb 0 price then (remaining * block_seconds / price, contract) else (by_node, node)
  lifetime by_node (err e) = (by_node, node)

  module _ {U : Type 0} (stamp_usage : ℕ → ℕ → ℕ → U) where
    unfoldable pub health_of : BatchStatus → ℕ × TtlSource → Health U
    health_of batch (ttl, source) = record {
      usable = batch.usable && ltb 0 ttl;
      ttl_seconds = ttl;
      usage = stamp_usage batch.utilization batch.depth batch.bucket_depth;
      depth = batch.depth;
      immutable = batch.immutable;
      ttl_source = source;
    }

    unfoldable pub health_known : String → Option BatchStatus → Exec W Failure (Option (Health U))
    unfolding health_of lifetime
    health_known batch_id none w = (ok none, w)
    health_known batch_id (some batch) w =
        let (answer, w') = payer.remaining_and_price batch_id w in
        (ok (some (health_of batch (lifetime batch.ttl_seconds answer))), w')

    unfoldable pub health : String → Exec W Failure (Option (Health U))
    unfolding health_known
    health batch_id = do batch ← t.get_batch batch_id; health_known batch_id batch
