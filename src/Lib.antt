-- ===== src/Lib.antt =====
-- comrade opens a terminal session between two machines that find each other without a server.
-- This library models the parts of it that decide what a datagram means and which way the next
-- one goes.
--
-- The parts and their files:
--   Replay    src/replay.c: a sequence number of a stream is acted on once. `replay_ok` is the C
--             function; the owner's `struct replay_win` is the state that is passed on.
--   Paths     src/path.c and src/path.h: the paths of a connection. Ep holds the endpoints
--             (path_ep_*), Types `struct path`, Measure the probes, round trips, losses and
--             warmth, Cost what both ends rank by, Observe what a probe teaches of the endpoints,
--             Probe the probe's wire form, Table, Admit and Reclaim the table of eight slots and
--             how paths enter and leave it, Rank the order, the choice and the challenger, Adopt
--             the budget for probes from new sources. Invariant runs the table's operations in
--             any sequence.
--   Seal      src/keys.c: sealing and opening a message.
--   Keys      src/keys.c: the demultiplexing tags, the pair key, the sealed claim box; Derive has
--             what else keys_derive and its companions make of a token.
--   DataAuth  src/dataauth.c: the tag and the counter on a datagram.
--   ProbePlane src/probeplane.c: the base key and the pair key of a connection, and what opens
--             under which. Once has the calls in any order against the window of Replay, Paired
--             what holds after the pair key was seen, Stretches the calls taken apart.
--   CtlPlane  src/ctlplane.c: one end of a control channel. Say is what it says and hands out
--             (ctlplane_tell_*, ctlplane_take_*), Hear what it hears (`on_msg` is
--             ctlplane_on_msg), Live the verdict on the link, Ops its calls in any order,
--             Numbering, Statements, Answers and Exchange the numbered statements of the carrying
--             path. Agree has two ends and the channels between them: Keying is what the exchange
--             of keys sees of an end, Ways its invariant, Moves that the code keeps it, Keyed
--             where it gets to.
--   CtlProto  src/ctlproto.c: the control channel's frames and payloads.
--   PathPlane src/pathplane.c: the paths of one connection. Arrive has what a received probe does
--             (`recv` is pathplane_recv) and, in Answers, what qualifies a path, in Reflected a
--             ping that came back; Carry the choice and the pin, Holds the carriers set aside,
--             Dedup lets go of two carriers of one route, Tick a round of probes.
--   NsFacts   src/nsfacts.c: what the network monitors post and the event loop takes.
--   Claims    src/claimlog.c, src/hostreap.c, src/hbeat.c: the claims a host has served, and when
--             it gives up on a client.
--   TermFilter src/termfilter.c: what a terminal answers about its size, on the way to tmux.
--             `scan` and `print` stand for its sscanf and snprintf.
--   Token     src/token.c: the payload of a token, the sum over it, and its text in base 58.
--   Base64    src/base64.c: both encoders, and the decoder for URLs.
--   Base58    src/base58.c: both directions, on arrays of digits.
--
-- How they interact: a probe (Paths.Probe) is sealed by Seal; what it carries is a path's own
-- measurement (Paths.Observe), which the other end takes into the cost (Paths.Cost). The cost and
-- the warmth order the paths (Paths.Rank), and the choice is announced in a transmit selection of
-- CtlProto, which CtlPlane numbers and answers; a PathPlane owns the table and a ProbePlane, and
-- pins the path that a statement names. CtlPlane owns a ProbePlane: the halves that two ends
-- exchange bind its pair key (Keys), under which it tags datagrams (DataAuth) and seals probes
-- (Paths.Probe), each of which a window of Replay admits once.
--
-- How the state is kept: a pointer into the table of paths is the index of its slot, and NULL or
-- -1 is `none`; a function that changes its argument returns the new value. A buffer is the list
-- of the bytes that are filled. A number is a native natural number; a word of 64, 32 or 16 bits
-- wraps where the source can make it wrap. An `int` that may be negative is the type ℤ of
-- Prelude.Int.
--
-- Bounds and fuel: the reframer's loop runs on the length of what is buffered, and every round
-- takes two bytes or more, so the fuel does not run out. Every other loop is over a list.
--
-- A mutex makes each stretch that holds it one step, and the steps of several threads any
-- sequence of calls (CtlPlane, PathPlane). A call of ProbePlane takes the mutex up to three
-- times: in `step` and in the parts that use it, it is one step that no other thread's stretch
-- falls into, and ProbePlane.Stretches has the stretches of any threads in any order, for the
-- window that admits each datagram once; that a call goes by keys that another thread changes
-- meanwhile is not followed further. The callbacks of ctlplane_sinks and pathplane_sinks that act
-- are effects that a call returns, in order; a callback that answers is an argument. Log lines
-- are left out.
--
-- Parameters: inet_ntop and BLAKE2b (`Os` of Paths.Ep), the cipher (`Aead` of Seal), X25519
-- (`Curve` of Keys) and the Ed25519 key pair (an argument of Keys.Derive), sscanf and snprintf
-- (arguments of TermFilter); `IsAead`, `IsDigest` and `IsCurve` state what their documentation
-- promises, and Samples has an instance of each. Random bytes and the clock are arguments.
--
-- Not modelled: sockets, timers, processes and terminals, the callbacks of the SSH, NAT and DHT
-- libraries, and the state machines above the path table and the control channel.
pub mod Prelude
pub mod Replay
pub mod Paths
pub mod Seal
pub mod CtlProto
pub mod NsFacts
pub mod Claims
pub mod Base64
pub mod Base58
pub mod Keys
pub mod DataAuth
pub mod ProbePlane
pub mod Samples
pub mod CtlPlane
pub mod PathPlane
pub mod TermFilter
pub mod Token
