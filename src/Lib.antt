-- ===== src/Lib.antt =====
-- A verification library of the Hysj messenger: the cryptography of its clients and the core of its
-- server, as executable functions, with the theorems that say what they do.
--
-- The parts and how they interact. A client agrees on a secret with another by the X3DH handshake,
-- starts a Double Ratchet from it and sends each message through it, inside a sealed envelope and,
-- if relays are used, inside onion layers. The server keeps messages, media and one-time codes in
-- Redis for a while, and users, contacts, groups, devices, one-time pre-keys and VPN sessions in
-- PostgreSQL. It lets users in by password and token, limits the rate of requests, and passes a
-- message on to the socket of its recipient, or queues it until there is one.
--
-- Which file models which part:
--   Base                  results (value, error, panic), tests, lists, byte strings
--   Crypto/Primitives     the third-party primitives, with their documented laws, as a parameter
--   Crypto/Keys           crates/hysj-crypto/src/kdf.rs, keys.rs, postquantum.rs
--   Crypto/Cipher         crates/hysj-crypto/src/cipher.rs: encrypt, decrypt
--   Crypto/X3dh           crates/hysj-crypto/src/x3dh.rs: x3dh_initiate, x3dh_respond
--   Crypto/Sealed         crates/hysj-crypto/src/sealed.rs: seal, open (here open_sealed)
--   Crypto/Onion          crates/hysj-crypto/src/onion.rs: wrap_onion, unwrap_layer
--   Crypto/Ratchet        crates/hysj-crypto/src/ratchet/double_ratchet.rs: RatchetState and its methods
--   Crypto/Ratchet/Skipped  crates/hysj-crypto/src/ratchet/skipped.rs: take is take_key here
--   Crypto/Ratchet/Chain  crates/hysj-crypto/src/ratchet/chain.rs
--   Messaging/Redis       Redis, with the documented behaviour of its commands, as a parameter
--   Messaging/Queue, Otp, MediaStore, Wipe  crates/hysj-messaging/src/queue.rs, otp.rs, media_store.rs,
--                         wipe.rs, and crates/hysj-shared/src/dto/wipe.rs
--   Database              crates/hysj-db/src/lib.rs, models.rs; Database/Groups, Keys, Devices, Pins, Vpn
--                         groups.rs, keys.rs, devices.rs, pinned_messages.rs, vpn.rs beside them;
--                         Database/Users, Logins, Contacts, Requests  users.rs, login_attempts.rs,
--                         contacts.rs, contact_requests.rs; Database/Accounts  delete_user of users.rs;
--                         Database/Select  rows of a table, for statements about what is left in it
--   Auth/Libraries        crates/hysj-auth/src/lib.rs, password.rs, totp.rs, and the third-party
--                         libraries with their documented laws, as a parameter
--   Auth/Jwt, Certificate  crates/hysj-auth/src/jwt.rs, certificate.rs
--   Vpn                   crates/hysj-vpn/src/config.rs, keys.rs
--   Api/Error             crates/hysj-shared/src/error.rs and crates/hysj-api/src/error.rs
--   Api/RateLimit         crates/hysj-api/src/middleware/rate_limit.rs
--   Api/Groups, Vpn       crates/hysj-api/src/routes/groups.rs, vpn.rs
--   Api/Auth              crates/hysj-api/src/routes/auth.rs and crates/hysj-shared/src/dto/auth.rs:
--                         register, login and refresh; Api/Auth/Profile has its other routes,
--                         Api/Auth/Request extract_ip and middleware/auth.rs
--   Api/Keys, Database/Bundles  crates/hysj-api/src/routes/keys.rs, and get_pre_key_bundle of keys.rs
--   Api/Otp               crates/hysj-api/src/routes/otp.rs
--   Api/Routes            steps of a route on the whole state; Api/Devices, Wipe
--                         crates/hysj-api/src/routes/devices.rs, wipe.rs
--   Api/Contacts          crates/hysj-api/src/routes/contacts.rs, contact_requests.rs
--   Api/Ws/Messages       crates/hysj-shared/src/dto/messages.rs
--   Api/Ws/Sockets        the map of connections, the channels, JSON texts, as parameters with laws
--   Api/Ws/Connections    crates/hysj-api/src/ws/connection_tracker.rs, state.rs, and
--                         send_push_notification of routes/push.rs
--   Api/Ws/Handler, Lifecycle  crates/hysj-api/src/ws/handler.rs: handle_ws_message is Handler, one
--                         function for each kind of message; handle_socket is Lifecycle's connect, then
--                         on_text for each text, then clean_up. The sink task, which writes the texts of
--                         a channel out until the channel closes, is the receiving end of that channel
-- Crypto/Toy, Messaging/Toy, Auth/Toy and Api/Ws/Toy are concrete primitives, a concrete store,
-- concrete libraries and channels, which show that the laws can hold; the Examples modules run the
-- theorems on them.
--
-- State and errors. A method that changes its object returns the new state with the result, so what an
-- error or a panic leaves behind is part of the model. A byte string, a String or the text of a Uuid is
-- a list of numbers. Randomness (seeds, nonces, new ids, digits) and the clock are arguments.
--
-- Bounds. u32 counters wrap at 2^32; Crypto/Primitives bounds a message by 2^32 bytes, far below the
-- cipher's own limit, and HKDF output by 8160 bytes. An expiry is between 1 and 2^32 seconds. A loop
-- is recursion on a list or on the number of its rounds; the walks over SCAN cursors, which the source
-- does not bound, run on fuel, and one round for each page that SCAN hands out is enough.
--
-- Not modelled: wiping of buffers, serialization of the whole ratchet state, logging and the text of
-- errors; key expiry within a sequence of commands, and lost connections to PostgreSQL; the upgrade
-- of a WebSocket request and its ping timer; the tables of settings and emojis, the other routes,
-- configuration, and the clients in app/ and native/.
pub mod Base
pub mod Crypto
pub mod Messaging
pub mod Database
pub mod Auth
pub mod Vpn
pub mod Api
