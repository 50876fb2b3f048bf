-- ===== src/Tests/Crypto.antt =====
-- The filter, the cipher and the handshake on small inputs.
use shin_vpn.Prelude.{
  ℕ, List, ◌++◌, ◌≢◌, ◌<◌, ◌^◌, Bytes, List, [], ◌∷◌, true, false, Option, none, some, ok, err,
  value_error, replicate, ◌≡◌, ◌≢◌, refl, arith, take,
}
use shin_vpn.Prelude.Struct.{le, value_le, pack_le}
use shin_vpn.Prelude.Decimal.{dotted}
use shin_vpn.Crypto.Replay.{AntiReplayWindow, init, check_and_update, advanced, in_window}
use shin_vpn.Crypto.Replay.Window.{spent}
use shin_vpn.Crypto.Replay.History.{run, answers, ideal_answers, answers-ideal_answers}
use shin_vpn.Crypto.Replay.Bounds.{bitmap-run-lt}
use shin_vpn.Crypto.Cipher.{ShinCipher, encrypt, decrypt, build_nonce}
use shin_vpn.Crypto.Cipher.Channel.{
  receive_all, decrypt-encrypt, delivered_once, forged_packet_locks_out,
}
use shin_vpn.Crypto.Cipher.Nonces.{encrypt_all, nonce_of, nonce_never_reused}
use shin_vpn.Crypto.Handshake.{
  new_handshake, initiator, responder, create_initiation, process_initiation, create_response,
  process_response, master, authorized,
}
use shin_vpn.Crypto.Handshake.Initiation.{
  auth_key, initiation, process_initiation-create_initiation,
}
use shin_vpn.Crypto.Handshake.Acceptance.{process_initiation_inv}
use shin_vpn.Crypto.Handshake.Agreement.{
  fresh_cipher, waiting, introduced, key_tx, key_rx, response, process_response-create_response,
}
use shin_vpn.Tests.Toys.{toy_aead, telling_aead, toy_primitives}

abbrev window : AntiReplayWindow
window = init 128

answers_example :
    answers window (5 ∷ 3 ∷ 5 ∷ 3 ∷ 200 ∷ 5 ∷ 199 ∷ [])
    ≡ ideal_answers 128 [] (5 ∷ 3 ∷ 5 ∷ 3 ∷ 200 ∷ 5 ∷ 199 ∷ [])
answers_example = answers-ideal_answers 128 (5 ∷ 3 ∷ 5 ∷ 3 ∷ 200 ∷ 5 ∷ 199 ∷ []) (omega arith)

answers_run :
    answers window (5 ∷ 3 ∷ 5 ∷ 3 ∷ 200 ∷ 5 ∷ 199 ∷ [])
    ≡ true ∷ true ∷ false ∷ false ∷ true ∷ false ∷ true ∷ []
unfolding init answers check_and_update advanced in_window
answers_run = refl

bitmap_example : (run window (5 ∷ 3 ∷ 200 ∷ [])).bitmap < 2 ^ window.window_size
bitmap_example =
    bitmap-run-lt window (5 ∷ 3 ∷ 200 ∷ []) (unfold init in omega arith)
      (unfold init in omega arith)

abbrev key : Bytes
key = replicate 32 1

abbrev sender : ShinCipher
sender = fresh_cipher key 77 true

abbrev receiver : ShinCipher
receiver = fresh_cipher key 77 false

abbrev sealed : Bytes
sealed = 104 ∷ 105 ∷ replicate 16 7

decrypt-encrypt_example : (decrypt toy_aead receiver 1 sealed none).1 ≡ ok (104 ∷ 105 ∷ [])
decrypt-encrypt_example =
    decrypt-encrypt toy_aead sender receiver (104 ∷ 105 ∷ []) sealed none 1
      (record { key = refl; session = refl }) (unfold encrypt build_nonce pack_le le in refl)
      (unfold spent init in refl)

delivered_once_example :
    (decrypt toy_aead
      (receive_all toy_aead
        (decrypt toy_aead receiver 1 sealed none).0
        ((4, sealed, none) ∷ (2, key, none) ∷ []))
      1
      sealed
      none).1
    ≡ err value_error
delivered_once_example =
    delivered_once toy_aead receiver 1 sealed sealed (104 ∷ 105 ∷ []) none none
      ((4, sealed, none) ∷ (2, key, none) ∷ []) (unfold init in omega arith)
      (unfold decrypt check_and_update init build_nonce pack_le le in refl)

forged_example :
    (decrypt toy_aead (decrypt toy_aead receiver 4000 key none).0 1 sealed none).1 ≡ err value_error
forged_example =
    forged_packet_locks_out toy_aead receiver 4000 1 key sealed none none
      (unfold init in omega arith) (unfold init in omega arith)
      (unfold decrypt check_and_update init advanced build_nonce pack_le le in refl)

abbrev between : List (Bytes × Option Bytes)
between = (key, none) ∷ ([], none) ∷ []

abbrev numbered : ℕ → Bytes
numbered seq = nonce_of telling_aead sender seq

-- The tags tell the nonces: numbers 1 and 4 of session 77.
nonce_example :
    (88 ∷ 77 ∷ 0 ∷ 0 ∷ 0 ∷ 1 ∷ replicate 11 0 ≡ telling_aead.seal key (numbered 1) (88 ∷ []) none)
    × (99 ∷ 77 ∷ 0 ∷ 0 ∷ 0 ∷ 4 ∷ replicate 11 0 ≡ telling_aead.seal key (numbered 4) (99 ∷ []) none)
    × (numbered 1 ≢ numbered 4)
nonce_example =
    nonce_never_reused telling_aead sender (88 ∷ []) (99 ∷ [])
      (88 ∷ 77 ∷ 0 ∷ 0 ∷ 0 ∷ 1 ∷ replicate 11 0) (99 ∷ 77 ∷ 0 ∷ 0 ∷ 0 ∷ 4 ∷ replicate 11 0) none
      none 1 4 between (unfold encrypt build_nonce pack_le le in refl)
      (unfold encrypt_all encrypt build_nonce pack_le le in refl)

-- A handshake: the private keys start with 3, 5 (client) and 7, 11 (server).

abbrev sk : Bytes
sk = 3 ∷ []

abbrev ek : Bytes
ek = 5 ∷ []

abbrev server_sk : Bytes
server_sk = 7 ∷ []

abbrev server_ek : Bytes
server_ek = 11 ∷ []

abbrev random_id : Bytes
random_id = 1 ∷ 2 ∷ 3 ∷ 4 ∷ []

abbrev public_of : Bytes → Bytes
public_of = toy_primitives.public_key

abbrev clients : Option (List Bytes)
clients = some (key ∷ public_of sk ∷ [])

initiation_example :
    (create_initiation toy_primitives random_id key
        (new_handshake initiator sk (some (public_of server_sk)) ek)
      ≡ (
        record (new_handshake initiator sk (some (public_of server_sk)) ek) {
          session_id = value_le random_id;
        },
        ok (
          initiation toy_primitives sk ek random_id key (le 32 35) (le 32 21),
          value_le random_id,
        ),
      ))
    × (process_initiation toy_primitives
          (initiation toy_primitives sk ek random_id key (le 32 35) (le 32 21))
          clients
          (new_handshake responder server_sk none server_ek)
        ≡ (
          record (new_handshake responder server_sk none server_ek) {
            session_id = value_le random_id;
            peer_static_pub = some (public_of sk);
            peer_ephemeral_pub = some (public_of ek);
          },
          ok (public_of sk, public_of ek),
        ))
initiation_example =
    process_initiation-create_initiation toy_primitives sk ek server_sk server_ek random_id key
      (le 32 35) (le 32 21) clients (unfold value_le in omega arith) refl refl refl refl

-- What the server knows of the client after the message of the example before.
accepted_example :
    let message = initiation toy_primitives sk ek random_id key (le 32 35) (le 32 21) in
    (id : Bytes) × (nonce : Bytes) × (dh1 : Bytes) × (dh2 : Bytes) × (take 116 message
      ≡ (id ++ (public_of ek ++ (public_of sk ++ nonce)))
        ++ take 16 (
            toy_primitives.hmac
              (auth_key toy_primitives dh1 dh2)
              (id ++ (public_of ek ++ (public_of sk ++ nonce)))))
    × (value_le random_id ≡ value_le id)
    × (toy_primitives.exchange server_sk (public_of ek) ≡ ok dh1)
    × (toy_primitives.exchange server_sk (public_of sk) ≡ ok dh2)
    × (authorized (public_of sk) clients ≡ true)
unfolding new_handshake
accepted_example =
    process_initiation_inv toy_primitives (new_handshake responder server_sk none server_ek)
      (record (new_handshake responder server_sk none server_ek) {
        session_id = value_le random_id;
        peer_static_pub = some (public_of sk);
        peer_ephemeral_pub = some (public_of ek);
      })
      (initiation toy_primitives sk ek random_id key (le 32 35) (le 32 21)) (public_of sk)
      (public_of ek) clients initiation_example.1

response_example :
    (create_response toy_primitives
        (dotted 10 8 0 2)
        key
        (introduced toy_primitives sk ek server_sk server_ek 9)
      ≡ (
        record (introduced toy_primitives sk ek server_sk server_ek 9) {
          allocated_vip = some (dotted 10 8 0 2);
          tx_cipher = some (
              fresh_cipher
                (key_tx toy_primitives (master toy_primitives (le 32 35) (le 32 21) (le 32 55)))
                9
                false);
          rx_cipher = some (
              fresh_cipher
                (key_rx toy_primitives (master toy_primitives (le 32 35) (le 32 21) (le 32 55)))
                9
                false);
          is_completed = true;
        },
        ok (
            response toy_primitives server_ek 9
              (10 ∷ 8 ∷ 0 ∷ 2 ∷ [])
              key
              (master toy_primitives (le 32 35) (le 32 21) (le 32 55))),
      ))
    × (process_response toy_primitives
          (response toy_primitives server_ek 9
            (10 ∷ 8 ∷ 0 ∷ 2 ∷ [])
            key
            (master toy_primitives (le 32 35) (le 32 21) (le 32 55)))
          (waiting toy_primitives sk ek server_sk 9)
        ≡ (
          record (waiting toy_primitives sk ek server_sk 9) {
            peer_ephemeral_pub = some (public_of server_ek);
            allocated_vip = some (dotted 10 8 0 2);
            tx_cipher = some (
                fresh_cipher
                  (key_rx toy_primitives (master toy_primitives (le 32 35) (le 32 21) (le 32 55)))
                  9
                  true);
            rx_cipher = some (
                fresh_cipher
                  (key_tx toy_primitives (master toy_primitives (le 32 35) (le 32 21) (le 32 55)))
                  9
                  true);
            is_completed = true;
          },
          ok (dotted 10 8 0 2),
        ))
response_example =
    process_response-create_response toy_primitives sk ek server_sk server_ek key (le 32 35)
      (le 32 21) (le 32 55) 10 8 0 2 9 (omega arith) (omega arith) (omega arith) (omega arith)
      (omega arith) refl refl refl refl
