-- ===== src/Lib.antt =====
-- A verification library of the factom client (package factom, and package wallet below it): the data
-- that it signs and sends, the strings in which it shows keys and amounts, and the rules by which it
-- keeps an identity's keys and a wallet's transactions.
--
-- The parts and their files:
--   * Base: lists, options, Go's results and integers, hexadecimal, association lists. Numbers are
--     native; a fixed width is written out as a remainder.
--   * Crypto: what the package calls and does not implement (SHA-2, base58, ed25519), as a parameter
--     with documented laws, and the compound hashes of util.go.
--   * Address: addresses.go and rcd.go. Address/Strings has AddressStringType and IsValidAddress,
--     Address/EcAddress and Address/FactoidAddress the two kinds of address, Address/Checksum the tail
--     that every printed key shares, Address/Mnemonic the keys of a mnemonic, with go-bip32, go-bip39
--     and go-bip44 as a parameter.
--   * IdentityKey: identityKeys.go, in the same way.
--   * Entry: entry.go and EntryCost of util.go. Entry/Layout reads the binary form back, Entry/Cost has
--     the cost, Entry/Commit the commit and reveal requests.
--   * Chain: chain.go, up to the requests that it composes. Chain/Json is the JSON form of an entry, up
--     to the structure of strings, since a missing chain id is that of a new chain.
--   * Rpc: the request structure of jsonrpc.go and the parameter structures of wsapistructs.go. An
--     operation that takes a number from the counter takes the count and returns it.
--     Rpc/Client has the calls of get.go that send one request, with the transport as a parameter.
--     Rpc/Server has two servers, the wallet and factomd, whose answers depend on all requests so far;
--     on them stand Rpc/Transactions and Rpc/Purchases for transaction.go, and Rpc/Keys for wallet.go.
--     Rpc/Sending and Rpc/Scripts tell which requests are made. Rpc/Calls has the calls of entry.go and
--     chain.go that commit and reveal, Rpc/Blocks those of get.go for blocks, heights and what is
--     pending, and of byHeight.go, ack.go, receipt.go, rawMsg.go and resolve.go, Rpc/Transport the
--     configuration, where a request goes, and the check of a request that is read.
--   * Reader: the walks of get.go over the entry blocks of a chain (GetAllChainEntries,
--     GetAllChainEntriesAtHeight, GetFirstEntry).
--   * Amount: FactoshiToFactoid and FactoidToFactoshi of util.go.
--   * Identity: identity.go. Identity/Chains has NewIdentityChain and GetIdentityChainID, Identity/Keys
--     the active keys at a height, from the entries on, Identity/Active the fetch of these entries,
--     Identity/Entries the entries that keys sign.
--   * Wallet: wallet/transaction.go. Wallet/Factoid is factomd's transaction as a parameter with laws,
--     Wallet/Transactions the map of temporary transactions, Wallet/Building and Wallet/Signing the
--     operations, Wallet/Frames, Wallet/Totals, Wallet/Fees and Wallet/Signatures what they do to the
--     map, to the totals and to the signatures.
--   * TxDatabase: wallet/txdatabase.go, with factomd's overlay, blocks and transactions as a parameter.
--     TxDatabase/Update has the update, TxDatabase/Queries the queries; TxDatabase/Fetched,
--     TxDatabase/Walk, TxDatabase/Ranges and TxDatabase/Addresses tell what they fetch and return.
--   * WalletDatabase: wallet/walletDBO.go and the calls of it in wallet/database.go, with the key-value
--     store and encoding/gob as parameters. WalletDatabase/Seed has the seed and its counters,
--     WalletDatabase/Tables the tables, WalletDatabase/Next the keys that are generated,
--     WalletDatabase/Opening the constructors of a wallet, which WalletDatabase/Opened is about.
--     WalletDatabase/Vault is what the database promises; WalletDatabase/Laws, Refinement, Holding,
--     Removing, Commands and Sequences hold it to that.
--   * WalletApi: the handlers of wallet/wsapi/wsapi.go, on WalletDatabase, Wallet, TxDatabase and the
--     calls of factomd. WalletApi/Addresses has addresses and the backup, WalletApi/Identities identity
--     keys, WalletApi/Transactions temporary transactions, WalletApi/Composing the requests that publish
--     chains, entries and identities, WalletApi/Cached the transactions of the cache, the height and the
--     properties, WalletApi/Balances the balances, WalletApi/ActiveKeys the keys of an identity,
--     WalletApi/Lock the passphrase. WalletApi/Dispatch is the state of the server and handleV2Request:
--     Methods has the names, State the steps on the state, Serve the two switches, and Locked what a
--     wallet does until it is unlocked. WalletApi/Http has checkAuthHeader, handleV2 and errors.go.
--     WalletApi/RoundTrip and WalletApi/Fees follow an answer from the wallet's state to its reader.
--   * Tests: concrete parameters and data on which the theorems are applied.
--
-- A string is the list of its bytes. Time enters as a number of nanoseconds. An array behind a pointer
-- is a list, and a key that the package builds has both of its arrays; `copy` keeps the length of its
-- target. The wallet's map holds one object under each name, so that a change of the object is a write
-- to the map; the mutex is held for each access, and each operation is one step. Loops are
-- structural recursion but for the walks of Reader and of TxDatabase, which run on fuel: as many blocks
-- as the chain has, and one, are enough, for the loop of the cache's update, for which the number of
-- blocks to fetch, and one, is enough, and for the decimal print, whose twenty digits hold every uint64.
-- The flag by which another thread stops that loop is a parameter: what it reads after each block.
-- The server's fuel, cache_fuel and chain_fuel of its environment, is that of the cache's update and of
-- the walk over a chain; a call for which it is not enough has no answer and no next state.
--
-- A power of ten above 10^18, which FactoidToFactoshi converts from a float64 to an int, is outside what
-- Go defines: the quotient by it is a parameter. So is what a float64 of 2^63 or more is as an int64. encoding/json's texts, base64, the posts of HTTP, netki's
-- names and securedb's encrypted database are parameters, the last one with what it documents. The
-- handlers count the requests that compose an answer; those by which the cache, the heights and the fee
-- rate are read are answers of a parameter, and do not move the server's count.
--
-- Not modelled: HTTP and TLS themselves, the certificate and the listening sockets of the server, the
-- structures of the blocks and their prints, the JSON texts, the files behind the databases, which a
-- parameter opens, and their conversions (wallet/importexport.go, wallet/v1conversion.go). Mnemonics
-- are ASCII.
pub mod Base
pub mod Crypto
pub mod Address
pub mod IdentityKey
pub mod Rpc
pub mod Entry
pub mod Chain
pub mod Amount
pub mod Identity
pub mod Reader
pub mod Wallet
pub mod TxDatabase
pub mod WalletDatabase
pub mod WalletApi
pub mod Tests
