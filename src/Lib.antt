-- ===== src/Lib.antt =====
-- ShinVPN: a VPN client and server in Python. This library models the parts of it that carry
-- its logic and proves what makes them correct.
--
-- The parts and how they meet. A peer serialises frames of thirteen kinds
-- (shinvpn/protocol/frames.py), each a header of 20 bytes and a payload. A client opens a
-- session with two handshake messages (shinvpn/crypto/handshake.py), from which both ends
-- derive two keys. A key belongs to a ShinCipher (shinvpn/crypto/cipher.py), which numbers and
-- seals packets and, on the other side, filters replays before it opens them. The server leases
-- a virtual address to each session (shinvpn/server/ip_pool.py), and its daemon
-- (shinvpn/server/server.py) hands each frame to the handler of its kind: packets go to the TUN
-- device, proxy frames to TCP streams. The client (shinvpn/client/client.py) is the other end.
-- An application reaches the tunnel through the local proxy (shinvpn/tunnel/proxy_tunnel.py),
-- which speaks SOCKS5, SOCKS4 and HTTP and turns each connection into proxy frames. The
-- transports (shinvpn/transport) carry the frames as datagrams or as websocket messages, and
-- key pairs, device profiles and configurations are kept in files (shinvpn/crypto/keys.py,
-- shinvpn/crypto/profiles.py, the two config.py). Beside them stand the disguise of packets as
-- TLS (shinvpn/transport/obfuscation.py), the route over two relays
-- (shinvpn/tunnel/multihop.py), the ad blocker (shinvpn/tunnel/adblock.py), the choice of
-- processes (shinvpn/tunnel/process_router.py), and the commands that guard the machine while
-- the tunnel is up (shinvpn/tunnel/killswitch.py, dns_shield.py, routing.py).
--
-- Which file models which part:
--
-- - Prelude: numbers, lists, exceptions as values (Errors), methods that change an object and
--   may raise (Exec), and the pieces of the Python library that the code uses: struct (Struct),
--   UTF-8 (Utf8), numerals and dotted quads (Decimal), int() (Int), dicts (Assoc), bits (Bits),
--   find, splitlines and split (Search), asyncio.StreamReader (Stream), the text of an address
--   (Inet), base64 (Base64) and the json module (Json).
-- - Protocol: Constants for protocol/constants.py; Header, Frames and Parse for FrameHeader,
--   the frame classes and parse_frame of protocol/frames.py, one child of Frames for each class
--   with fields. Payloads, Parse.Roundtrip and Parse.Outcome hold proofs.
-- - Crypto: Replay for AntiReplayWindow, Cipher for ShinCipher, Handshake for HandshakeState,
--   Keys for KeyPair and its files, Profiles for DeviceProfile and ProfileManager of
--   crypto/profiles.py. Aead and Primitives are what these call of the `cryptography` package
--   and of hmac: records of functions with laws, which the definitions take as parameters.
-- - Server: IpPool for IPPool; Session for ClientSession and the handlers of its frames; Daemon
--   for ShinVPNServer, whose three dicts hold references into one table of session objects;
--   Config for ServerConfig.
-- - Client: ShinVPNClient of client/client.py, its connect cut at the awaits; its child Packets
--   for what is sent through the tunnel and what is done with what arrives, Events for
--   everything that can happen to it, in any order, and Config for ClientConfig. Proxying,
--   Sending, Relaying and EndToEnd follow the data of a local application through the client to
--   the server.
-- - Transport: Obfuscation for DPIObfuscator of transport/obfuscation.py, Udp for the datagram
--   protocols of udp_transport.py, Stealth for the message loops of stealth_transport.py.
-- - Tunnel: Domain, Bloom, Trie and Adblock for tunnel/adblock.py; MultiHop and Pathfinder for
--   tunnel/multihop.py; ProcessRouter for tunnel/process_router.py; Proxy for the SOCKS
--   handlers of tunnel/proxy_tunnel.py, its child Proxy.Http for the HTTP handler and
--   Proxy.Gateway for UniversalProxyGateway, which numbers the connections and holds their
--   writers. The other children of Proxy hold proofs: what a connection may send (Shape,
--   Sessions, Requests), its loop (Piping, Keeping), and what of a request arrives (Socks,
--   Delivery, Rewriting, Forwarding). KillSwitch, DnsShield and Routing for
--   tunnel/killswitch.py, dns_shield.py and routing.py, which give commands to the operating
--   system by way of Shell; KillSwitch.Iptables and Routing.Table say what the commands are
--   relied on for.
-- - Tests: runs at concrete inputs, with small functions in the place of the cryptography.
--
-- Correspondence. A class is a record of its attributes, a method is a function from the object
-- to the object after the call and what it returns or raises; what was written before a raise
-- stays written. Text is the list of its code points, bytes are lists of numbers, floats are
-- their 64-bit patterns. Time and random bytes are arguments. Locks make each call one step. A
-- connection of the local proxy is run over all that the application will send, with where that
-- stream is cut into reads left to the reader. A JSON file is the value that json.loads finds
-- in it, and json.dumps followed by json.loads is a function of its own (reread of
-- Prelude.Json). A call of the operating system that answers or raises, such as the start of
-- the local proxy or the switching on of the kill switch, is an argument with its outcome
-- (SetUp of Client).
--
-- Bounds. Every loop is over a list or a number that the code counts to, but for three. The
-- loop that pipes what an application sends (pipe_rounds) runs on the number of bytes still to
-- come and one more round, which is enough since each round but the last takes a byte. The
-- digits of a number are counted out on the number itself, and the characters of UTF-8 on the
-- number of bytes; both take at least one at each step. Sequence numbers and bitmaps are
-- unbounded, as in Python, and struct.pack raises where a number does not fit.
--
-- Not modelled: the GUI, the command line and the TUN adapters, which are I/O or calls of the
-- operating system; the sockets that the transports open and the websockets package; the QR
-- codes and the broadcast beacon of the profiles; the registry entries that point Windows at
-- the local proxy. What a command does to the system is a parameter. A handler of a daemon is
-- one step: what other tasks do while it awaits is not seen. str.strip, lower and upper are
-- those of ASCII text. A connection that is reset while it is read counts as one that has
-- ended. A writer counts as flushed when it is closed: what asyncio still takes for a closing
-- writer whose buffer is not empty is left out. The calls that disconnect makes are taken not
-- to raise.
pub mod Prelude
pub mod Protocol
pub mod Client
pub mod Crypto
pub mod Server
pub mod Transport
pub mod Tunnel
pub mod Tests
