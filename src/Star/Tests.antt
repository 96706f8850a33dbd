-- ===== src/Star/Tests.antt =====
-- Runs of the star protocol at concrete messages, and its theorems at them.
use rain_net.Common.{
  ℕ, ◌≤◌, ◌≡◌, refl, Bool, true, false, Option, none, some, [], ◌∷◌, ◌++◌, arith, nat_beq, length,
  take, drop, All, IsByte, Bytes, Str, codes, str_beq, ok, eof, read_full,
}
use rain_net.Common.Int.{pos, ◌+ℤ◌}
use rain_net.Star.MsgType
use rain_net.Star.Message.{
  read_payload, read_versioned, Message, IsSendable, write_message, read_message, header, io,
}
use rain_net.Star.Message.RoundTrip.{write_message_lem, read-write, header_with}
use rain_net.Star.Session.{
  decode_control, send_control, Session, Json, send, send_all, receive_all, receive,
}
use rain_net.Star.Session.Laws.{receive_all-send_all}
use rain_net.Star.Handshake.{
  answer_handshake, await, HandshakeReq, HandshakeAck, client_handshake, server_handshake_verify,
  versioned, handshake_ack_for, verified,
}
use rain_net.Star.Handshake.Agreement.{handshake_agrees, Carries, handshake_answer, control_frame}
use rain_net.Star.Window.{Window, new_window, acquire, acquired, blocked}
use rain_net.Star.Window.Credit.{acquire_once, IsBounded}
use rain_net.Star.Window.Ledger.{Reach, here, next, opened, taken-IsBounded, acquires, book}

abbrev hello : Message
hello = record { type = MsgType.stream_data; flags = 0; stream_id = 7; payload = codes "hi" }

abbrev hello_frame : Bytes
hello_frame = header hello ++ hello.payload

hello-IsSendable : IsSendable hello
hello-IsSendable = record {
  type_fits = omega arith;
  flags_fit = omega arith;
  id_fits = omega arith;
  payload_fits = omega arith;
}

hello_written : write_message hello ≡ ok hello_frame
hello_written = write_message_lem hello hello-IsSendable

hello_bytes : hello_frame ≡ 1 ∷ 16 ∷ 0 ∷ 0 ∷ 0 ∷ 0 ∷ 0 ∷ 7 ∷ 0 ∷ 0 ∷ 0 ∷ 2 ∷ 104 ∷ 105 ∷ []
unfolding header
hello_bytes = refl

hello_split : (r : ℕ) → hello_frame ≡ header_with 0 hello ++ (hello.payload ++ [])
unfolding header
hello_split r = refl

hello_frame-All : All IsByte hello_frame
unfolding header
hello_frame-All = ground arith

read-write_example : read_message (hello_frame ++ (9 ∷ [])) ≡ ok (hello, 9 ∷ [])
read-write_example = read-write hello (9 ∷ []) hello_frame hello-IsSendable hello_written

hello_read : read_message hello_frame ≡ ok (hello, [])
unfolding header
hello_read = read-write hello [] hello_frame hello-IsSendable hello_written

hello_cut : write_message hello ≡ ok (take 13 hello_frame ++ (105 ∷ []))
unfolding write_message header
hello_cut = refl

abbrev fresh : Bytes → Session
fresh input = record { input = input; output = []; writable = true }

receive_all-send_all_example :
    ((send_all (fresh []) (hello ∷ hello ∷ [])).1 ≡ none)
    × (receive_all 3 (fresh (send_all (fresh []) (hello ∷ hello ∷ [])).0.output)
        ≡ (hello ∷ hello ∷ [], some (io eof)))
receive_all-send_all_example =
    receive_all-send_all 3 (fresh []) (fresh (send_all (fresh []) (hello ∷ hello ∷ [])).0.output)
      (hello ∷ hello ∷ []) (hello-IsSendable, (hello-IsSendable, tt)) refl refl refl (omega arith)

-- A text with its length in front.
abbrev put_text : Str → Bytes
put_text s = length s ∷ s

abbrev text_of : Bytes → Str
text_of [] = []
text_of (n ∷ bs) = take n bs

abbrev after_text : Bytes → Bytes
after_text [] = []
after_text (n ∷ bs) = drop n bs

abbrev req_of : Bytes → Option HandshakeReq
req_of [] = none
req_of (v ∷ bs) =
    some (record { version = v; client_name = text_of bs; key_password = text_of (after_text bs) })

abbrev req_json : Json HandshakeReq
req_json = record {
  marshal = λ q. q.version ∷ (put_text q.client_name ++ put_text q.key_password);
  unmarshal = req_of;
}

abbrev put_bool : Bool → ℕ
put_bool true = 1
put_bool false = 0

abbrev ack_of : Bytes → Option HandshakeAck
ack_of [] = none
ack_of (b ∷ bs) = some (record { accepted = nat_beq b 1; message = text_of bs })

abbrev ack_json : Json HandshakeAck
ack_json = record { marshal = λ a. put_bool a.accepted ∷ put_text a.message; unmarshal = ack_of }

abbrev request : HandshakeReq
request = record { version = 0; client_name = codes "home"; key_password = codes "pw" }

abbrev check_pw : Option (HandshakeReq → Bool)
check_pw = some (λ q. str_beq q.key_password (codes "pw"))

request-Carries : Carries req_json (versioned request)
unfolding versioned
request-Carries = record { reads_back = refl; some_text = omega arith; fits = omega arith }

answer-Carries : Carries ack_json (handshake_answer req_json ack_json check_pw (versioned request))
unfolding versioned handshake_ack_for verified str_beq
answer-Carries = record { reads_back = refl; some_text = omega arith; fits = omega arith }

abbrev to_server : Session
to_server = fresh (control_frame req_json MsgType.handshake (versioned request))

abbrev to_client : Session
to_client = fresh (
    control_frame ack_json MsgType.handshake_ack
      (handshake_answer req_json ack_json check_pw (versioned request)))

handshake_agrees_example :
    ((client_handshake req_json ack_json to_client request).1 ≡ ok (handshake_ack_for true))
    × ((server_handshake_verify req_json ack_json to_server check_pw).1 ≡ ok (versioned request))
    × ((client_handshake req_json ack_json to_client request).0.input ≡ [])
    × ((server_handshake_verify req_json ack_json to_server check_pw).0.input ≡ [])
unfolding versioned handshake_ack_for verified str_beq client_handshake server_handshake_verify
    send_control send write_message header await receive read_message read_versioned read_payload
    read_full decode_control answer_handshake
handshake_agrees_example =
    handshake_agrees req_json ack_json to_client to_server request check_pw [] [] refl refl
      request-Carries answer-Carries refl refl refl refl

abbrev window : Window
window = new_window 10

window-IsBounded : IsBounded window
unfolding new_window
window-IsBounded = omega arith

abbrev five : Window
five = record { outstanding = pos 5; limit = 10; closed = false; waiters = 0 }

five-IsBounded : IsBounded five
five-IsBounded = omega arith

five_taken : acquire 3 window 5 ≡ some (acquired five)
unfolding acquire new_window ◌+ℤ◌
five_taken = refl

acquire_once_example : acquire 1 five 6 ≡ some (blocked (record five { waiters = 1 }) 6)
unfolding ◌+ℤ◌
acquire_once_example = acquire_once 0 five 6 (omega arith) refl

taken_once : Reach (opened 10) (book (opened 10) 5 (acquired five))
unfolding acquire new_window
taken_once = next here (acquires 3 5 (acquired five) five_taken)

taken-IsBounded_example : (5 ≤ 10) × IsBounded five
taken-IsBounded_example = taken-IsBounded 10 (book (opened 10) 5 (acquired five)) taken_once
