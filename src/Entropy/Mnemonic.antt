-- ===== src/Entropy/Mnemonic.antt =====
-- packages/dappdata/src/entropy/mnemonic.ts: a secret from a BIP-39 mnemonic. The library for it and
-- the normal form of a text are parameters.
use dappdata.Base.{Bool, String, none, if◌then◌else◌, Result, ok, err, pure}
use dappdata.Errors.{Bytes, Failure, dapp_data_error, unsupported}
use dappdata.Entropy.{EntropyKind, EntropySource}

-- `normalise` is the NFKD form, with single spaces and none at its ends.
pub record Bip39 : Type 0 where
  pub normalise : String → String
  pub validate : String → Bool
  pub seed_of : String → String → Bytes

unfoldable pub mnemonic : {W : Type 0} → Bip39 → String → String → Result Failure (EntropySource W)
mnemonic lib words passphrase =
    let phrase = lib.normalise words in
    if lib.validate phrase
    then ok (record {
      kind = EntropyKind.mnemonic;
      secret = λ app.
          pure
            (record { secret = lib.seed_of phrase passphrase; account = none; method = "bip39" });
    })
    else err (dapp_data_error unsupported)
