-- ===== src/Lib.antt =====
-- capri-hub: the session protocol between a host and the hub, and the state that the hub keeps
-- for it.
--
-- A host and the hub talk over a transport that may break and come back. Each direction numbers its
-- reliable frames, keeps them until they are acknowledged, and replays them behind a reconnect;
-- the other side releases them in order and once. A large frame travels in transport units. The hub
-- keeps one protocol state for each host and epoch, which outlives a transport.
--
-- The files and what they model:
--   Common       Boolean tests, lists, byte strings, signed numbers, machine words, maps, results
--   Wire/Receiver       wire/receiver.go: Accept with its parked frames
--   Wire/Sender         wire/sender.go: the unacknowledged log with Append, AppendAt, Ack, Elide
--   Wire/Delivery       a sender and a receiver on a network that loses, repeats and reorders
--   Wire/TransportUnit  wire/unit.go: EncodeUnit, DecodeUnit, SplitFrame, Reassembler
--   Wire/Close          wire/identity.go: the close reasons and their two wire forms
--   Wire/Limits         wire/limits.go: the advertised scale and its validation
--   Wire/Frame          wire/frame.go: the envelope, Encode, Decode, validation, constructors
--   Hub/Session         internal/hub/session.go: sessionProto
--   Hub/ControlQueue    internal/hub/writer.go: the queue of control frames
--   Hub/Downlink        internal/hub/writer.go: writeFrame, as the plan of what is sent
--   Hub/Relay           internal/hub/hub.go: acceptRespond, applyRespondLocked, Respond, the tombstones
--   Hub/Registry        internal/hub/hub.go: PairAs, Unpair, RenameHost, tokens and pairing codes
--   Hub/Users           internal/hub/users.go: the accounts and their tokens
--   Hub/Guests          internal/hub/guests.go, internal/hub/hub.go: the guest tokens, their whitelists
--                       and the children of the sessions on them
--   Hub/Events          internal/hub/hub.go: the buffered events of a host, EventsAfter
--   Hub/Subscribers     internal/hub/hub.go: what a browser's subscriber sees, queues and
--                       drops, and which sessions the pages show
--   Hub/Prefs           internal/hub/prefs.go: the last-write-wins preference entries
--
-- Conventions. A method that writes to its receiver returns the new state beside its results; a
-- method that holds a lock is one step. A Go `uint64` is a native number with its wrap-around
-- written out (`add64`), a Go `int` that may be negative is a ℤ, and a byte count is kept as its
-- 64-bit pattern. A Go map is an association list whose keys stand once; where Go visits a map in an
-- unspecified order the model visits the list in its order. A time is a number of milliseconds and
-- the zero time is `none`. An error is a constructor: for frames one for each error that a caller
-- can tell apart, for transport units one for each message.
-- `encoding/json` is a record of functions (`Json`), and what it must satisfy is a hypothesis of the
-- theorem that needs it.
--
-- Fuel: `drain` runs on the number of parked frames, and each round takes one out of the map;
-- `split_loop` runs on the length of the payload, and each round moves the offset by at least 1.
-- `apply_all` runs on the number of parked chunks, and each round takes one out of the map;
-- `free_host_id` runs one round for each host and one more, and says when it is not at its end.
-- `search` runs on the length of the list, and each round halves what is left of it.
-- A call that draws at random until a text is free is given the list of its draws; where the list
-- ends first the call is still drawing.
-- The theorems on `accept`, `accept_respond` and `split_frame` are about the code with that fuel, and give its results.
--
-- The theorems on numbered frames speak of fewer than 2 ^ 64 frames in a sequence space, which each
-- of them says where it needs it.
--
-- Not modelled: sockets, goroutines, channels, clocks, files, HTTP and the command line; the random
-- epoch; and, so far, the session loop with its handshake, the dispatch of a request with its
-- channels and timeouts, the subscription calls and the generations of audience
-- snapshots, and the preferences of the users.
pub mod Common
pub mod Wire
pub mod Hub
