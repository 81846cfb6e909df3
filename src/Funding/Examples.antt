-- ===== src/Funding/Examples.antt =====
-- The theorems about funding at concrete inputs: a value of 600,000 bytes, and a folder that is written
-- ten times a day for a year.
use native.Mathlib.Nat.{pow-suc}
use dappdata.Base.{
  Bool, true, some, ltb, if◌then◌else◌, ℕ, zero, suc, ◌+◌, ◌*◌, ◌/◌, ◌^◌, ◌≡◌, ◌≤◌, ◌<◌, refl,
  arith, false, none, ok, err, ◌>>=◌,
}
use dappdata.Errors.{other_error}
use dappdata.Transport.{Transport, BatchStatus}
use dappdata.Funding.Lifetime.{Agrees, health-Agrees}
use dappdata.Funding.Confirm.{arrived, waited, confirm-Waits}
use dappdata.Funding.Cost.{Fits, quote_room}
use dappdata.Funding.Purchase.{Bought, fund-Bought}
use dappdata.Funding.{
  Payer, WriteBudget, Quote, quote, confirm, or_value, FundOptions, FundResult, to_buy, fund,
  Health, health,
}

-- A chain that costs 24,000 per block, and nothing else.
abbrev chain_of : {W : Type 0} → Transport W
chain_of = record {
  put_feed_update = λ put w. (err other_error, w);
  get_feed_update = λ get w. (ok none, w);
  find_latest = λ owner topic w. (ok none, w);
  put_blob = λ content stamp w. (err other_error, w);
  get_blob = λ reference w. (err other_error, w);
  get_batch = λ batch_id w. (ok none, w);
  get_chain_state = λ w. (ok (record { current_price = 24000; block = 1 }), w);
}

abbrev chain : Transport Unit
chain = chain_of

abbrev no_payer : Payer Unit
no_payer = record {
  from = λ w. (err other_error, w);
  allowance = λ from w. (err other_error, w);
  approve = λ total w. (err other_error, w);
  create_batch = λ create w. (err other_error, w);
  top_up = λ batch_id amount w. (err other_error, w);
  receipt = λ hash w. (err other_error, w);
  remaining_and_price = λ batch_id w. (err other_error, w);
  random_nonce = λ w. (err other_error, w);
  batch_id_for = λ from nonce. nonce;
  ids_differ = λ a b. false;
}

-- A depth that is more than enough: one for each chunk.
abbrev depth_for : ℕ → ℕ
depth_for size = size / 4096

less_than_power : (n : ℕ) → n < 2 ^ n
less_than_power zero = omega arith
less_than_power (suc n) = rw (pow-suc 2 n) (omega (arith, less_than_power n))

depth_for_enough : (size : ℕ) → size ≤ 4096 * 2 ^ depth_for size
depth_for_enough size = at_least (2 ^ (size / 4096)) (less_than_power (size / 4096))
  where
    at_least : (p : ℕ) → size / 4096 < p → size ≤ 4096 * p
    at_least p h = omega arith

abbrev budget : WriteBudget
budget = record { writes_per_day = 10; retention_days = 2; bytes_per_write = none }

abbrev price : Quote
price = record { depth = 40; amount_per_chunk = 829440000; total = 829440000 * 2 ^ 40 }

quote_room_example : Fits chain no_payer 5 depth_for depth_for_enough budget price
unfolding quote ◌>>=◌
quote_room_example = quote_room chain no_payer 5 depth_for depth_for_enough budget tt tt price refl

abbrev batch : BatchStatus
batch = record {
  batch_id = "b1";
  usable = true;
  depth = 20;
  bucket_depth = 16;
  immutable = true;
  utilization = 3;
  ttl_seconds = 100;
}

-- The contract says 600 for a price of 3, and a block takes 5 seconds.
abbrev answers : Payer Unit
answers = record no_payer { remaining_and_price = λ batch_id w. (ok (600, 3), w) }

abbrev with_batch : Transport Unit
with_batch = record chain { get_batch = λ batch_id w. (ok (some batch), w) }

health-Agrees_example :
    (h : Health ℕ) × (health with_batch answers 5 depth_for
        (λ used depth bucket_depth. used)
        "b1"
        tt
      ≡ (ok (some h), tt))
    × Agrees with_batch answers 5 depth_for (λ used depth bucket_depth. used) batch (ok (600, 3)) h
health-Agrees_example =
    health-Agrees with_batch answers 5 depth_for (λ used depth bucket_depth. used) "b1" batch tt tt
      tt (ok (600, 3)) refl refl

-- A transaction whose receipt appears at the third look.
abbrev slow_payer : Payer ℕ
slow_payer = record {
  from = λ w. (err other_error, w);
  allowance = λ from w. (err other_error, w);
  approve = λ total w. (err other_error, w);
  create_batch = λ create w. (err other_error, w);
  top_up = λ batch_id amount w. (err other_error, w);
  receipt = λ hash w. (if ltb w 2 then ok none else ok (some (some "b1")), w + 1);
  remaining_and_price = λ batch_id w. (err other_error, w);
  random_nonce = λ w. (err other_error, w);
  batch_id_for = λ from nonce. nonce;
  ids_differ = λ a b. false;
}

confirm-Waits_example : confirm chain_of slow_payer 5 depth_for "0xaa" "b1" 0 ≡ (ok tt, 3)
confirm-Waits_example =
    confirm-Waits chain_of slow_payer 5 depth_for 2 "0xaa" "b1" (some "b1") 0 2 3
      (waited 1 0 1 2 refl (waited 0 1 2 2 refl (arrived 2))) (omega arith) refl refl

-- A payer with no allowance yet, and a chain that takes every transaction.
abbrev willing : Payer ℕ
willing = record {
  from = λ w. (ok "0xp", w + 1);
  allowance = λ from w. (ok 0, w + 1);
  approve = λ total w. (ok "0xh", w + 1);
  create_batch = λ create w. (ok "0xaa", w + 1);
  top_up = λ batch_id amount w. (err other_error, w);
  receipt = λ hash w. (ok (some none), w + 1);
  remaining_and_price = λ batch_id w. (err other_error, w);
  random_nonce = λ w. (ok "n", w + 1);
  batch_id_for = λ from nonce. nonce;
  ids_differ = λ a b. false;
}

abbrev wish : FundOptions
wish = record {
  owner = "0xa";
  budget = none;
  depth = some 17;
  amount_per_chunk = some 24000;
  immutable = none;
}

abbrev bought : FundResult
bought = record {
  batch_id = "n";
  depth = 17;
  amount_per_chunk = 24000;
  total_cost = 24000 * 2 ^ 17;
  transaction_hash = "0xaa";
}

fund_run : fund chain_of willing 5 depth_for wish 0 ≡ (ok bought, 6)
unfolding fund confirm ◌>>=◌
fund_run = refl

fund-Bought_example :
    (◌≡◌ {A = Bool} (or_value wish.immutable true) true)
    × (w0 : ℕ) × (to_buy chain_of willing 5 depth_for wish (some 17) (some 24000) 0
        ≡ (ok (17, 24000), w0))
    × Bought chain_of willing 5 depth_for "0xa" w0 6 bought
fund-Bought_example = fund-Bought chain_of willing 5 depth_for wish 0 6 bought fund_run
