-- ===== src/Star/StreamHub/Transfer.antt =====
-- What Write of one side sends, fed to the hub of the other side, is what Read there has to return.
use rain_net.Common.{ℕ, ◌≡◌, Bool, none, some, List, [], ◌∷◌, nat_eq, str_eq}
use rain_net.Common.Maps.{lookup}
use rain_net.Star.Message.{Message}
use rain_net.Star.Session.{Json}
use rain_net.Star.Handshake.{ConnOpenAck}
use rain_net.Star.StreamHub.{StreamConn, StreamHub, FeedItem, bytes, half, full}
use rain_net.Star.StreamHub.Feed.{feed}

-- The frames that a read loop gives to the hub one after the other.
unfoldable pub feed_all : Json ConnOpenAck → Bool → StreamHub → List Message → StreamHub
feed_all json pick h [] = h
feed_all json pick h (m ∷ ms) = feed_all json pick (feed json pick h m).0 ms

-- The number leads to a connection that is not closed on this side.
abbrev pub Live : StreamHub → ℕ → ℕ → StreamConn → Type 0
Live h id ref sc =
    (lookup id h.conns ≡ some ref) × (lookup ref h.heap ≡ some sc) × (sc.closed ≡ none)

abbrev pub with_feed : StreamConn → List FeedItem → StreamConn
with_feed sc items = record sc { feed = items }

-- No close frame was delivered.
abbrev pub Unclosed : List FeedItem → Type 0
Unclosed [] = Unit {0}
Unclosed (bytes p ∷ items) = Unclosed items
Unclosed (half ∷ items) = ⊥
Unclosed (full ∷ items) = ⊥
