-- ===== src/Lib.antt =====
-- dappdata keeps a dapp's state on Swarm, in feeds that the user owns: a verification of the library in
-- packages/dappdata/src.
--
-- The parts, from the inside out, and the files that model them:
--   Errors, Base: the errors of packages/dappdata/src/errors.ts; results, actions that change a state
--     and may throw (`Exec`), JavaScript maps as association lists, Boolean tests and lists over ℕ.
--   Envelope: packages/dappdata/src/envelope. `write_header` and `read_header` are writeHeader and
--     readHeader of frame.ts; `seal` and `open_frame` are seal and open of index.ts.
--   Transport: the interface of packages/dappdata/src/transport/types.ts as a record of calls,
--     Transport.Blob for splitBlob of blob.ts; Transport.Memory for memory.ts, Transport.Fetch for
--     fetch.ts with Transport.Missing for missing.ts, and Transport.Http for http.ts, with one
--     definition for each operation. `ask` and `ask_maybe` are the helpers of fetch.ts.
--   Feed: packages/dappdata/src/feed. `latest` and `append` are the methods of SequentialFeed, `walk`
--     the loop of #latestFromNetwork; Feed.Address is address.ts; Feed.Log is the interface that a
--     transport fills, a log that only grows: Transport.Memory.Serves and Transport.Fetch.Serves. What a
--     node promises for the latter is in Transport.Fetch.Promises.
--   Slot: packages/dappdata/src/slot. `get`, `set`, `frame`, `resolve` are the methods of Slot, and
--     Slot.Watch the polling of watch; Slot.Codecs is codec.ts; Slot.Serves is what a slot relies on,
--     Slot.Memory fills it.
--   Stamper: packages/dappdata/src/stamper. Stamper.State is state.ts with the wire form of a
--     checkpoint, Stamper.Store the interface of a checkpoint store, Stamper the closure that
--     createStamper makes, one definition per step of commit, ensureRoom, stamp and checkpoint;
--     Stamper.Usage is state and usage.
--     The field `handed` of its record `Device` is kept for the theorems alone.
--   Checkpoints: #slotCheckpointStore of packages/dappdata/src/dappdata.ts, which keeps the stamper's
--     checkpoints in a slot.
--   Derive: packages/dappdata/src/derive. Derive.Signature is signature.ts, Derive.Message is
--     message.ts, Derive.Keys is kdf.ts with Derive.Scalar for deriveScalar.
--   Entropy: packages/dappdata/src/entropy, a module per source (Wallet, Passkey, Mnemonic), and
--     Entropy.Account for packages/dappdata/src/siwe/account.ts.
--   Folder: the class DappData of packages/dappdata/src/dappdata.ts: `connect`, and `slot` over a list
--     of the slot objects, in which a place is an object's identity.
--   Funding: packages/dappdata/src/funding/index.ts: chunksPerWrite, quote, fund, topUp, health over a
--     payer; Funding.Abi for abi.ts; and Funding.Provider, the payer's calls, with chains.ts.
-- A slot writes frames through its feed and blobs through its transport; the feed reads and writes
-- updates through the transport, which asks a stamper for a stamp per chunk; the stamper publishes
-- what it reserves through a checkpoint store. A folder is opened with the secret of a source of
-- entropy, and hands its keys to the slots.
--
-- Conventions: a `bigint` or a whole number is a natural number, and a `Uint8Array` a list of them. A
-- call that may throw or change something is an `Exec` over the state it works on, and what was changed
-- before a throw stays changed. Awaited calls run to their end, one after the other, but for
-- Stamper.Interleaving, where calls of one device interleave. Keccak, secp256k1, AES-GCM, the splitter
-- and joiner of core-sdk, random nonces, `fetch`, JSON, bee-js, WebAuthn, a wallet's or payer's provider
-- and the contract behind it are parameters, with what is relied on as named laws (AesGcm, CoreSdk,
-- Dependable, SdkLaws, KeepsFeed). A text that is walked is the list of its codes; where it is not, it is
-- a `String`, and what hexadecimal text is to it is a parameter. A duration and a balance are never
-- negative.
--
-- Bounds and fuel: the loop of commit has its own bound, max_commit_attempts, and so have the feed's
-- walk (16 steps) and confirm (90 looks). The loop of chunksPerWrite runs on as much fuel as there are
-- leaves, and a level is smaller than the one below it. deriveScalar runs on given fuel, since nothing
-- says that a hash is ever not zero modulo the order; so does connect.
--
-- Not modelled: timers, the messages of errors, and what only passes names on (the index.ts of entropy,
-- derive and transport). slotCheckpointStore is modelled over a slot, but not handed to the stamper as
-- its store. The spikes are measurements, and no part of the library.
pub mod Base
pub mod Errors
pub mod Stamper
pub mod Envelope
pub mod Transport
pub mod Feed
pub mod Slot
pub mod Derive
pub mod Entropy
pub mod Funding
pub mod Checkpoints
pub mod Folder
