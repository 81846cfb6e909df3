-- ===== src/Funding/Confirm.antt =====
-- `confirm` of packages/dappdata/src/funding/index.ts: the looks at a receipt.
use dappdata.Base.{
  ℕ, zero, suc, ◌<◌, ◌≡◌, refl, false, String, Option, none, some, arith, ok, err, ◌>>=◌,
}
use dappdata.Errors.{dapp_data_error, unsupported}
use dappdata.Transport.{Transport}
use dappdata.Funding.{Payer, check_receipt, on_receipt, confirm_in, confirm}

-- `n` looks at the receipt of a transaction find none, and take the world from `w` to `v`.
pub data Waits {W : Type 0} (payer : Payer W) (hash : String) : ℕ → W → W → Type 0 where
  arrived : (w : W) → Waits payer hash zero w w
  waited :
      (n : ℕ) (w u v : W)
      → payer.receipt hash w ≡ (ok none, u)
      → Waits payer hash n u v
      → Waits payer hash (suc n) w v

-- The receipt names no other batch.
abbrev pub Names : {W : Type 0} → Payer W → String → Option String → Type 0
Names payer expected none = Unit {0}
Names payer expected (some emitted) = payer.ids_differ emitted expected ≡ false

module _ {W : Type 0} (t : Transport W) (payer : Payer W) (block_seconds : ℕ)
    (depth_for_size : ℕ → ℕ) where
  check_receipt-Names :
      (expected : String) (emitted : Option String) (w : W)
      → Names payer expected emitted
      → check_receipt t payer block_seconds depth_for_size expected emitted w ≡ (ok tt, w)
  unfolding check_receipt ◌>>=◌
  check_receipt-Names expected none w h = refl
  check_receipt-Names expected (some emitted) w h = rw h refl

  confirm_in-Waits :
      (n attempts : ℕ) (hash expected : String) (emitted : Option String) (w v v' : W)
      → Waits payer hash n w v
      → n < attempts
      → payer.receipt hash v ≡ (ok (some emitted), v')
      → Names payer expected emitted
      → confirm_in t payer block_seconds depth_for_size attempts hash expected w ≡ (ok tt, v')
  unfolding confirm_in on_receipt ◌>>=◌
  confirm_in-Waits n zero hash expected emitted w v v' r l e h = absurd (omega arith)
  confirm_in-Waits _ (suc attempts) hash expected emitted _ _ v' (arrived w) l e h =
      rw e (check_receipt-Names expected emitted v' h)
  confirm_in-Waits _ (suc attempts) hash expected emitted _ _ v' (waited n w u v look more) l e h =
      rw look (confirm_in-Waits n attempts hash expected emitted u v v' more (omega arith) e h)

  -- If the receipt appears after fewer than 90 looks that found none, and names no other batch, then
  -- `confirm` returns, right after the look that found it.
  pub confirm-Waits :
      (n : ℕ) (hash expected : String) (emitted : Option String) (w v v' : W)
      → Waits payer hash n w v
      → n < 90
      → payer.receipt hash v ≡ (ok (some emitted), v')
      → Names payer expected emitted
      → confirm t payer block_seconds depth_for_size hash expected w ≡ (ok tt, v')
  unfolding confirm
  confirm-Waits n hash expected emitted w v v' r l e h =
      confirm_in-Waits n 90 hash expected emitted w v v' r l e h

  confirm_in-none :
      (attempts : ℕ) (hash expected : String) (w v : W)
      → Waits payer hash attempts w v
      → confirm_in t payer block_seconds depth_for_size attempts hash expected w
        ≡ (err (dapp_data_error unsupported), v)
  unfolding confirm_in on_receipt ◌>>=◌
  confirm_in-none zero hash expected _ _ (arrived w) = refl
  confirm_in-none (suc attempts) hash expected _ _ (waited n w u v look more) =
      rw look (confirm_in-none attempts hash expected u v more)
