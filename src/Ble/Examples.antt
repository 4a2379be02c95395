-- ===== src/Ble/Examples.antt =====
-- BLE transfers at concrete inputs.
use km.Prelude.{
  ℕ, ◌≡◌, refl, arith, List, [], ◌∷◌, ok, err, none, replicate, length-replicate, some,
}
use km.Ble.Defs.{
  new_sender, new_receiver, enqueue, max_payload, value_len, BleReceiver, Active, receive, sequence,
}
use km.Ble.Delivery.{deliver}
use km.Ble.Whole.{deliver-enqueue}
use km.Ble.Receiver.{IsReceiver, Answered, new_receiver-IsReceiver, receive-IsReceiver}
use km.Ble.Reassembler.{Arrivals, held, receive_all, reassemble_all}
use km.Ble.Reassembly.{receive_all-reassembles}

-- Forty bytes take three values of twenty.
abbrev forty : List ℕ
forty = replicate 40 7

deliver-enqueue_example :
    ((enqueue new_sender forty 20).1 ≡ ok tt)
    × (deliver max_payload (enqueue new_sender forty 20).0 new_receiver (replicate 20 0) 23 10 0
        ≡ some forty)
unfolding new_sender new_receiver value_len
deliver-enqueue_example =
    deliver-enqueue new_sender new_receiver forty (replicate 20 0) 20 23 10 0 refl refl refl
      (length-replicate {A = ℕ} max_payload 0) (length-replicate {A = ℕ} max_payload 0)
      (omega (arith, length-replicate {A = ℕ} 40 7)) (omega (arith, length-replicate {A = ℕ} 40 7))
      (omega arith) (omega arith) (omega (arith, length-replicate {A = ℕ} 20 0)) (omega arith)

-- A second value whose index is not the next one.
receive-IsReceiver_example :
    IsReceiver (receive new_receiver (1 ∷ 3 ∷ 9 ∷ []) 23 0).0
    × Answered
        (receive new_receiver (1 ∷ 3 ∷ 9 ∷ []) 23 0).0
        (receive new_receiver (1 ∷ 3 ∷ 9 ∷ []) 23 0).1
receive-IsReceiver_example =
    receive-IsReceiver new_receiver (1 ∷ 3 ∷ 9 ∷ []) 23 0 new_receiver-IsReceiver

-- A transfer that is lost on the way, and another behind it.
abbrev waiting : Active
waiting = record { id = 1; expected = 1; last_ms = 100 }

abbrev partial : BleReceiver
partial = record { bytes = replicate max_payload 0; len = 2; active = some waiting }

partial-IsReceiver : IsReceiver partial
partial-IsReceiver = (length-replicate {A = ℕ} max_payload 0, omega arith, omega arith)

abbrev arrivals : Arrivals
arrivals =
    (1 ∷ 0x81 ∷ 9 ∷ [], 5100)
    ∷ (1 ∷ 0 ∷ 5 ∷ 6 ∷ [], 5200)
    ∷ (1 ∷ 0x81 ∷ 7 ∷ [], 5300)
    ∷ (1 ∷ 0x82 ∷ 8 ∷ [], 5400)
    ∷ []

receive_all-reassembles_example :
    receive_all partial 23 arrivals ≡ reassemble_all (held partial) 23 arrivals
receive_all-reassembles_example = receive_all-reassembles partial 23 arrivals partial-IsReceiver

-- What that comes to.
reassembled_arrivals :
    reassemble_all (held partial) 23 arrivals
    ≡ err sequence ∷ ok none ∷ ok (some (5 ∷ 6 ∷ 7 ∷ [])) ∷ err sequence ∷ []
unfolding value_len
reassembled_arrivals = refl
