-- ===== src/Entropy/Account.antt =====
-- packages/dappdata/src/siwe/account.ts: an account that signs with its own key.
pub mod Code
use dappdata.Base.{
  ℕ, ◌≡◌, refl, Bool, true, false, ◌&&◌, ◌||◌, ◌↔◌, ◌⊎◌, inl, inr, Bool-cases, String, Option, none,
  some, List, [], ◌∷◌, ◌++◌, ◌==◌, ==_iff, if◌then◌else◌, Result, ok, err, Exec, ◌>>=◌, ◌>>◌, lift,
  pure, length, arith,
}
use dappdata.Base.Hex.{Text, codes, strip_0x, to_lower_case}
use dappdata.Errors.{Failure, dapp_data_error, other_error, contract_account}
use dappdata.Transport.Missing.{starts_with}
use dappdata.Entropy.{Provider, RpcError}

-- `code ?? "0x"`
abbrev pub or_0x : Option Text → Text
or_0x none = codes "0x"
or_0x (some code) = code

abbrev pub all_zeros : Text → Bool
all_zeros [] = true
all_zeros (c ∷ t) = c == 48 && all_zeros t

-- `hex === "" || /^0+$/.test(hex)`
unfoldable pub has_no_code : Text → Bool
has_no_code digits = all_zeros digits

-- The designator of a delegation: `ef0100` and an address.
unfoldable pub is_delegation : Text → Bool
is_delegation digits = length digits == 46 && starts_with (codes "ef0100") digits

unfoldable pub signs_itself : Option Text → Bool
unfolding has_no_code is_delegation
signs_itself code =
    let digits = to_lower_case (strip_0x (or_0x code)) in has_no_code digits || is_delegation digits

unfoldable pub checked_code :
    {W : Type 0} → Result RpcError (Option Text) × W → Result Failure (Unit {0}) × W
unfolding signs_itself
checked_code (err e, w) = (err other_error, w)
checked_code (ok code, w) =
    (if signs_itself code then ok tt else err (dapp_data_error contract_account), w)

unfoldable pub assert_signing_account :
    {W : Type 0} → Provider W → String → Exec W Failure (Unit {0})
unfolding checked_code
assert_signing_account provider account w = checked_code (provider.get_code account w)
