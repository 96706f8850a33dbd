-- ===== src/Lib.antt =====
-- rain-net: a tunnel that publishes services of an inner network through a server. A client dials the
-- server's control port, authenticates and registers its streams; the server opens a connection over
-- that session for each outside user and moves the bytes both ways.
--
-- Common: shared lists, numbers, results, and maps as association lists; `Str` is a Go string as its
--   bytes. Common.Int has the signed numbers of the send window.
-- Star: protocol/star. Star.Message is message.go (WriteMessage, ReadMessage); Star.Session is
--   session.go over the bytes that a connection will deliver and those that it was given;
--   Star.Handshake is handshake.go, each function one run over a session; Star.Window is window.go.
--   Star.StreamHub is adapter.go: connections that either end of a session opens, as byte streams.
--   Star.CtrlClient is ctrlclient.go, the client's side: DialCtrl and DialIntranet (Dial), the loop of
--   Run with handleConnOpen (Dispatch), the two goroutines of a connection (Pumps).
-- StarHandler: internal/handler/star. StarHandler.StreamTable is streamtable.go, which numbers the
--   registered streams; StarHandler.CtrlHub is ctrl_hub.go, the connections that run over the control
--   sessions. The hub looks streams up in the table, counts bytes there, opens a window of Star.Window
--   for each connection and sends messages of Star.Message.
--   StarHandler.CtrlProxy is ctrlproxy.go: the handshake with the credentials of the settings, and the
--   loop that gives each frame to the feed (Star.StreamHub), to the hub or to the stream table.
--   StarHandler.Tunnel puts the hub and a client together.
-- Router: internal/router/router.go, which picks a dialer and a stream for a connection.
-- StarServer.ConnectTable: internal/star/starserver/connecttable.go, which streams a proxy listener may
--   connect to.
-- Config: config/schema.go, the configuration and its validation; StarServer.Runtime is the part of
--   internal/star/starserver/register.go that turns it into the settings of the listeners and into
--   the rules of the connect table.
-- StarServer.Proxy: internal/star/starserver/proxy_server.go, the stream that an outside connection
--   takes by the rules of the connect table and the registered streams.
-- Sniff: internal/ingress/sniff/sniff.go, one port for several protocols.
-- Ws: protocol/ws/ws.go, the frames of RFC 6455 and the messages that they carry.
--
-- A pointer that several places hold is a place in a map (`heap`), a channel of one answer a place in
-- `mail`, a session a number. A method that holds its component's lock is one step. A call that waits
-- is split where it waits: its state is a value (`Opening`, `Attempt`) and what wakes it is the next
-- step. Fuel: Acquire's loop takes at least a byte a round, so more fuel than bytes is enough
-- (Star.Window.Credit.acquire_total); a read loop consumes at least a header a message, so more than
-- the bytes of the stream is enough (Star.Session.Laws.receive_all_total); so for ReadMessage of a
-- websocket, whose frames have two bytes at least.
--
-- What yaml makes of a configuration is a parameter. encoding/json is one too: a pair of functions, of
-- which the theorems assume only that a value at hand is read back from its text and that the text is
-- not empty and fits a message. Not modelled: sockets, deadlines, TLS, logging, the transports, the
-- plugin framework and the commands, which move bytes or wire the parts together; the HTTP upgrade of a
-- websocket, the bridge, the pumps of the proxy listener, the configuration store, the decorators and
-- the name server; socks5, which is a copy of a library.
pub mod Common
pub mod Star
pub mod StarHandler
pub mod Router
pub mod StarServer
pub mod Sniff
pub mod Ws
pub mod Config
