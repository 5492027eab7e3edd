-- ===== src/Lib.antt =====
-- The coordinator, the client and the bot of blindjoin: rounds of CoinJoin with blind signatures.
--
-- Participants register inputs with a proof of ownership and get a blind signature on a token; redeem
-- the token anonymously for an output of the denomination; and sign the one transaction of the round,
-- which the coordinator broadcasts. A monitor starts rounds and ends each phase by a timer; those who
-- fail to sign are banned.
--
-- The files follow the crates. Prelude holds what the parts share: Boolean tests, lists over the
-- native numbers, machine words (a u32 or u64 is a number, with its wrap-around written out), results
-- with their `?`, equality as an interface, and a hash map as the list of its entries in the order of
-- its iteration. External is one record of the functions of other crates (bitcoin, bip322,
-- blind_rsa_signatures, hashes, encodings) and a few laws about them; a theorem names the laws it uses.
-- External.Keys and External.Blind are the functions that only a client calls: those that sign, and
-- those that blind a token.
--
--   Shared        shared/src: script types and proofs (bip322/), errors.rs, protocol.rs, token.rs
--   Coordinator   coordinator/src, by file:
--     Config        config.rs, with Defaults
--     Fee, Tx       bitcoin/fee.rs and bitcoin/tx.rs; the children of Tx are about the share of the
--                   fee, the funds, the order of inputs, the PSBT and the conservation of value
--     Utxo          bitcoin/utxo.rs
--     SigVerify     bitcoin/sig_verify.rs
--     Round.State   round/state.rs, with the transition graph
--     Round.*       round/manager.rs, input_reg.rs, output_reg.rs, signing.rs (Signing under the
--                   lock, Finalize off it) and blame.rs
--     Api           api/handlers.rs, a module per handler, and Limits (api/middleware.rs)
--     Discovery     discovery/pkarr_pub.rs: the fields of the published record
--     Monitor       the loop and the timers of run.rs
--     Startup       the start in run.rs; Sound is about its panics, Kept, Steps and Restart about the
--                   bans of a process that stops and starts again
--     System        all steps of the coordinator in any order, and what holds in every state: Wf and
--                   Reachable are its invariant, Spec and Refines the round as it looks from outside,
--                   Expiry the timers, Answers the handlers without their panics
--   Client        client/src: Wallet (wallet.rs, with Create its constructors and Proof its proofs),
--                 Discover (discover.rs), round/ as Register (round/input.rs), Input (the envelope of
--                 a proof), Output and Sign (the checks before signing), Http (http.rs) and Main
--                 (main.rs, one client through a round)
--   Bot           liquidity-bot/src: Strategy (strategy.rs), Run (lib.rs) and Env (main.rs)
--   Tests         runs at concrete inputs, with small stand-ins for the functions of External
--
-- A function that changes the round takes the state and returns the new one beside its answer. A
-- handler is split at its write lock: what it saw before is an argument of its own, so that any other
-- steps can lie between. Fresh identifiers, keys, the clock and the answers of the node are arguments.
-- An error is a value; a panic (`expect`, an index) is an error of its own. Messages of errors and logs
-- are left out. The one fuel is that of the decimal digits of a number, a unit more than the number.
-- The loop that sends a request again is recursion on the retries that are left, and the polling for a
-- phase is recursion on the responses that come; where they end, no further response comes in time.
--
-- Not modelled: the cryptography, JSON, Tor and the sockets of HTTP, the zeroing of secrets in memory,
-- the buckets of the rate limits.
pub mod Prelude
pub mod External
pub mod Shared
pub mod Coordinator
pub mod Client
pub mod Bot
pub mod Tests
