-- ===== src/Tests/Paying.antt =====
-- A wallet that lists one signed transaction, and a factomd that takes what it is sent.
use factom.Base.{
  bytes_eq, and_then, ◌≡◌, ◌⊎◌, refl, true, false, none, [], ◌∷◌, Bytes, codes, replicate, ok,
}
use factom.Base.Int.{ℤ, pos}
use factom.Base.Hex.{encode_to_string}
use factom.Tests.{toy_crypto}
use factom.Tests.Addresses.{factoid_address}
use factom.Address.FactoidAddress
use factom.Address.Strings.{address_string_type}
use factom.Wallet.Transactions.{is_factoid_pub}
use factom.Rpc.Client.{Json2Response}
use factom.Rpc.Request.{composed_transaction, new_json2_request}
use factom.Rpc.Server.{Servers, World}
use factom.Rpc.Transactions.{Transaction, TransactionJson, send_transaction, get_tmp_transaction}
use factom.Rpc.Purchases.{send_factoid}
use factom.Rpc.Sending.{IsListed, sent, send_transaction-signed_only, to_factomd_count}
use factom.Rpc.Transactions.{compose_transaction}
use factom.Rpc.Purchases.{get_factoid_balance}
use factom.Rpc.Request.{no_params, transaction_value_request}
use factom.Rpc.Server.{asked}
use factom.Rpc.Scripts.{begun, signed, fee_settled, balanced, send_factoid-script}

abbrev random : Bytes
random = replicate 16 171

abbrev payment : Transaction
payment = record {
  block_height = 0;
  fees_paid = 12;
  fees_required = 12;
  is_signed = true;
  name = encode_to_string random;
  timestamp = pos 0;
  total_ec_outputs = 0;
  total_inputs = 112;
  total_outputs = 100;
  inputs = [];
  outputs = [];
  ec_outputs = [];
  txid = [];
}

abbrev toy_json : TransactionJson
toy_json = record {
  transaction = λ p. ok payment;
  transactions = λ p. ok (payment ∷ []);
  request = λ p. new_json2_request (codes "factoid-submit") 0 (composed_transaction p);
  TransactionResponse = Unit;
  transaction_response = λ p. ok tt;
  balance = λ p. ok (pos 500);
  rate = λ p. ok 1000;
}

abbrev no_error : Json2Response
no_error = record { error = none; result = [] }

abbrev toy_servers : Servers
toy_servers = record { wallet = λ h r. ok no_error; factomd = λ h r. ok no_error }

abbrev start : World
start = record { count = 0; history = [] }

abbrev payer : Bytes
payer = FactoidAddress.public_string toy_crypto factoid_address

abbrev name : Bytes
name = encode_to_string random

abbrev after_sending : World
after_sending = (send_transaction toy_servers toy_json toy_crypto name start).1

sending : send_transaction toy_servers toy_json toy_crypto name start ≡ (ok payment, after_sending)
unfolding send_transaction factom.Base.and_then get_tmp_transaction
    factom.Rpc.Transactions.list_transactions_tmp factom.Rpc.Server.ask
    factom.Rpc.Client.read_response factom.Rpc.Transactions.find_name factom.Base.bytes_eq
    encode_to_string factom.Base.Hex.hex_digit factom.Rpc.Transactions.send_signed
    factom.Rpc.Transactions.compose_transaction factom.Rpc.Server.forward
    factom.Rpc.Transactions.delete_transaction
sending = refl

send_transaction-signed_only_example :
    (to_factomd_count after_sending.history ≡ 0)
    ⊎ ((tx : Transaction) × IsListed toy_servers toy_json toy_crypto name start tx
        × (tx.is_signed ≡ true)
        × (to_factomd_count after_sending.history ≡ 1))
unfolding to_factomd_count
send_transaction-signed_only_example =
    send_transaction-signed_only toy_servers toy_json toy_crypto name start

abbrev after_payment : World
after_payment =
    (send_factoid toy_servers toy_json toy_crypto (ok random) payer payer 100 false start).1

paying :
    send_factoid toy_servers toy_json toy_crypto (ok random) payer payer 100 false start
    ≡ (ok payment, after_payment)
unfolding send_factoid and_then factom.Rpc.Transactions.new_transaction factom.Rpc.Server.ask
    factom.Rpc.Client.read_response factom.Rpc.Transactions.add_transaction_input
    address_string_type FactoidAddress.public_string factom.Address.Checksum.checksummed
    FactoidAddress.rcd_hash factom.Address.Rcd.hash factom.Crypto.shad bytes_eq
    factom.Rpc.Transactions.add_transaction_output factom.Rpc.Purchases.get_factoid_balance
    factom.Rpc.Server.ask_factomd factom.Rpc.Purchases.settle_fee factom.Address.Strings.prefix_type
    encode_to_string factom.Base.Hex.hex_digit factom.Rpc.Purchases.sign_and_send new_json2_request
    factom.Rpc.Server.asked factom.Rpc.Server.asked_factomd factom.Rpc.Server.forward
    factom.Rpc.Transactions.add_transaction_fee factom.Rpc.Transactions.compose_transaction
    factom.Rpc.Transactions.delete_transaction factom.Rpc.Transactions.find_name get_tmp_transaction
    factom.Rpc.Transactions.list_transactions_tmp factom.Rpc.Transactions.send_signed
    send_transaction factom.Rpc.Transactions.sign_transaction
    factom.Rpc.Transactions.sub_transaction_fee
paying = refl

send_factoid-script_example :
    (n : Bytes) × (ok random ≡ ok n)
    × (balance : ℤ) × (result : Bytes) × ((get_factoid_balance toy_servers toy_json toy_crypto payer
          (asked
            (codes "add-output")
            (transaction_value_request (encode_to_string n) payer 100)
            (begun (encode_to_string n) payer 100 start))).0
        ≡ ok balance)
    × ((compose_transaction toy_servers toy_json toy_crypto (encode_to_string n) (
          asked (codes "tmp-transactions") no_params (
            signed (encode_to_string n) false (
              fee_settled
                (encode_to_string n)
                payer
                payer
                100
                balance
                (balanced (encode_to_string n) payer payer 100 start))))).0
        ≡ ok result)
    × (after_payment
        ≡ sent (toy_json.request result) (encode_to_string n) (
            signed (encode_to_string n) false (
              fee_settled
                (encode_to_string n)
                payer
                payer
                100
                balance
                (balanced (encode_to_string n) payer payer 100 start))))
    × (is_factoid_pub (address_string_type toy_crypto payer) ≡ true)
    × (is_factoid_pub (address_string_type toy_crypto payer) ≡ true)
    × (payment.is_signed ≡ true)
    × (payment.name ≡ encode_to_string n)
send_factoid-script_example =
    send_factoid-script toy_servers toy_json toy_crypto (ok random) payer payer 100 false start
      paying
