-- ===== src/WalletApi.antt =====
-- The wallet's API (wallet/wsapi/wsapi.go): the handlers, the dispatch of a request to them, and
-- the answers over HTTP. The reader of the parameters is encoding/json's: a handler takes what it has
-- read, or its error.
pub mod Addresses
pub mod Identities
pub mod RoundTrip
pub mod Transactions
pub mod Fees
pub mod Composing
pub mod Lock
pub mod Cached
pub mod Balances
pub mod ActiveKeys
pub mod Dispatch
pub mod Http
