-- ===== src/Star/StreamHub/Tests.antt =====
-- The theorems on stream connections at two ends of one connection.
use rain_net.Common.{
  ℕ, ◌≡◌, refl, Bool, true, false, Option, none, some, [], ◌∷◌, Bytes, codes, nat_eq, str_eq,
}
use rain_net.Common.Maps.{lookup}
use rain_net.Star.Message.{Message}
use rain_net.Star.Session.{Json}
use rain_net.Star.Handshake.{ConnOpenAck}
use rain_net.Star.StreamHub.{
  read_feed, read_pending, StreamConn, StreamHub, bytes, half, read, got, get, new_conn,
  mark_closed, end_of_stream, ended,
}
use rain_net.Star.StreamHub.Feed.{session_closed, open_stream, failed}
use rain_net.Star.StreamHub.Reading.{ReadLaw, read_law}
use rain_net.Star.StreamHub.SessionEnd.{session_closed_lem, Released, Answered, read_all}

abbrev ack_of : Bytes → Option ConnOpenAck
ack_of (c ∷ []) = some (record { conn_id = c; accepted = true; message = [] })
ack_of _ = none

abbrev ack_json : Json ConnOpenAck
ack_json = record { marshal = λ a. a.conn_id ∷ []; unmarshal = ack_of }

-- Two bytes of a frame are left, a frame and a half close are queued.
abbrev reader : StreamConn
reader = record {
  conn_id = 1;
  feed = bytes (codes "cd") ∷ half ∷ [];
  closed = none;
  read_eof = false;
  write_half = false;
  pending = codes "ab";
}

abbrev idle : StreamConn
idle = record {
  conn_id = 1;
  feed = bytes (codes "cd") ∷ [];
  closed = none;
  read_eof = false;
  write_half = false;
  pending = [];
}

abbrev hub : StreamHub
hub = record {
  conns = (1, 0) ∷ [];
  acks = [];
  conn_seq = 1;
  dead = false;
  heap = (0, idle) ∷ [];
  mail = [];
  allocated = 1;
}

read_one : (read 1 reader).1 ≡ got (codes "a")
unfolding read read_pending
read_one = refl

read_law_example : ReadLaw 1 reader (read 1 reader)
read_law_example = read_law 1 reader

abbrev always : Message → Bool
always m = true

-- A connection with bytes in its feed, and a caller that waits under number 2.
abbrev asking : StreamHub
asking = record hub { acks = (2, 1) ∷ []; allocated = 2 }

session_closed_lem_example :
    Released (get asking 1) (session_closed asking)
    × Answered (lookup 2 asking.acks) (session_closed asking) 2
    × ((session_closed asking).conns ≡ [])
    × ((session_closed asking).acks ≡ [])
    × ((up : Bool) (stream_id : ℕ)
        → (open_stream up (session_closed asking) stream_id).1.1 ≡ failed)
    × ((conn_id : ℕ) → (new_conn (session_closed asking) conn_id).1 ≡ none)
session_closed_lem_example = session_closed_lem asking 1 2 refl

there : get asking 1 ≡ some (0, idle)
unfolding get lookup
there = refl

late_reads :
    read_all (2 ∷ (2 ∷ [])) (mark_closed end_of_stream idle)
    ≡ got (codes "cd") ∷ (ended end_of_stream ∷ [])
unfolding read mark_closed read_pending read_feed
late_reads = refl
