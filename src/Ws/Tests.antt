-- ===== src/Ws/Tests.antt =====
-- Runs of the websocket frames, and the theorems about them at these.
use rain_net.Common.{
  ℕ, zero, suc, ◌≤◌, ◌<◌, ◌≡◌, refl, ap, inl, Bool, true, false, none, some, List, [], ◌∷◌, ◌++◌,
  arith, length, All, Bytes, codes, Result, ok, err, read_full,
}
use rain_net.Ws.Op
use rain_net.Ws.{connection_closed, Frame, Error, frame_bytes, max_message_size, read_frame}
use rain_net.Ws.Frames.{read_frame-frame_bytes}
use rain_net.Ws.Conn.{Net, Conn, whole, read_message, read_loop, write_frame, close}
use rain_net.Ws.Progress.{read_message_total}
use rain_net.Ws.Messages.{
  Sent, wire, IsReadable, joined, pings, IsMessage, last, part, control, Works, answered,
}
use rain_net.Ws.Messages.Reassembly.{read_message-IsMessage, close_silent}

abbrev mask : Bytes
mask = 1 ∷ 2 ∷ 3 ∷ 4 ∷ []

abbrev sent : Bool → ℕ → Bytes → Sent
sent fin op payload = record {
  key = mask;
  frame = record { fin = fin; opcode = op; payload = payload };
}

abbrev sent-IsReadable :
    (fin : Bool) (op : ℕ) (payload : Bytes)
    → op < 16
    → length payload ≤ max_message_size
    → IsReadable true (sent fin op payload)
sent-IsReadable fin op payload small fits = record {
  sendable = record { opcode_fits = small; key_fits = refl; payload_fits = omega arith };
  fits = fits;
}

abbrev hello : List Sent
hello =
    sent false Op.text (codes "He")
    ∷ (sent true Op.ping (codes "?") ∷ (sent true Op.continuation (codes "llo") ∷ []))

abbrev hello-IsMessage : IsMessage false hello
hello-IsMessage = part _ refl (inl refl) (control _ refl (last _ refl refl))

abbrev hello-readable : All (IsReadable true) hello
hello-readable = (
  sent-IsReadable false Op.text (codes "He") (omega arith) (omega arith),
  (
    sent-IsReadable true Op.ping (codes "?") (omega arith) (omega arith),
    (sent-IsReadable true Op.continuation (codes "llo") (omega arith) (omega arith), tt),
  ),
)

abbrev net : Net
net = record { random = λ n. some mask; accepts = λ n. true }

abbrev works : Works net
works = record { accepts_all = λ n. refl; key = λ n. mask; random_fills = λ n. refl }

abbrev server : Bytes → Conn
server input = record { client = false; closed = false; input = input; output = []; tries = 0 }

hello_masked :
    frame_bytes true mask (whole Op.text (codes "Hello"))
    ≡ 0x81 ∷ 0x85 ∷ 1 ∷ 2 ∷ 3 ∷ 4 ∷ 73 ∷ 103 ∷ 111 ∷ 104 ∷ 110 ∷ []
unfolding frame_bytes
hello_masked = refl

read_message_test :
    read_message net (server (wire true hello []))
    ≡ some
        (ok (codes "Hello"), record (server []) { output = (0x8A ∷ 1 ∷ 63 ∷ []) ∷ []; tries = 1 })
unfolding read_message read_frame frame_bytes read_full
read_message_test = refl

read_frame-frame_bytes_example :
    read_frame (frame_bytes true mask (whole Op.binary (codes "Hi")) ++ codes "rest")
    ≡ ok (whole Op.binary (codes "Hi"), codes "rest")
read_frame-frame_bytes_example =
    read_frame-frame_bytes true mask (whole Op.binary (codes "Hi")) (codes "rest")
      (record { opcode_fits = omega arith; key_fits = refl; payload_fits = omega arith })
      (omega arith)

short : length (wire true hello []) < 100
unfolding frame_bytes
short = omega arith

read_message_total_example :
    (r : Result Error Bytes) × (c' : Conn) × (read_message net (server (wire true hello []))
      ≡ some (r, c'))
    × (read_loop net 100 none (server (wire true hello [])) ≡ some (r, c'))
    × (length c'.input ≤ length (wire true hello []))
read_message_total_example = read_message_total net (server (wire true hello [])) 100 short

read_message-IsMessage_example :
    read_message net (server (wire true hello (codes "rest")))
    ≡ some (ok (joined hello), answered works (pings hello) (server (codes "rest")))
read_message-IsMessage_example =
    read_message-IsMessage works true (codes "rest") hello (server (wire true hello (codes "rest")))
      hello-IsMessage hello-readable refl refl

close_silent_example :
    ((close net (server [])).output ≡ [])
    × ((close net (server [])).closed ≡ true)
    × (write_frame net (whole Op.binary (codes "Hi")) (close net (server []))
        ≡ (err connection_closed, close net (server [])))
close_silent_example = close_silent net (whole Op.binary (codes "Hi")) (server [])

zeros : ℕ → Bytes
zeros zero = []
zeros (suc n) = 0 ∷ zeros n

length-zeros : (n : ℕ) → length (zeros n) ≡ n
unfolding zeros
length-zeros zero = refl
length-zeros (suc n) = ap suc (length-zeros n)

abbrev large : Frame
large = whole Op.binary (zeros (suc max_message_size))
