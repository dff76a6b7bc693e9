-- ===== src/Rpc.antt =====
-- JSON-RPC requests (jsonrpc.go, wsapistructs.go), and the calls that send them.
pub mod Request
pub mod Client
pub mod Server
pub mod Transactions
pub mod Purchases
pub mod Keys
pub mod Sending
pub mod Scripts
pub mod Calls
pub mod Blocks
pub mod Transport
