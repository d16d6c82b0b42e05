-- ===== src/Lib.antt =====
-- fidoh, a FIDO2 client library: the core with its budget, its CBOR layer, its messages and its
-- ceremony, the CTAPHID transport, the framing of the NFC transport, and the PIN of the soft token.
--
-- The program. A caller hands the core (crates/fidoh-core) one time budget, a `Deadline`, that
-- every wait of a ceremony is paid from. The ceremony discovers devices over its transports,
-- selects one, probes it with getInfo, acquires a pinUvAuthToken where it needs one, sends a
-- getAssertion request, waits through the keepalives, checks the answer against the caller's allow
-- list and drains further assertions. Its messages are canonical CBOR. A transport takes a CTAP
-- command to a device and brings the response back. The HID transport (crates/fidoh-transport-hid)
-- cuts a message into 64-byte reports, opens a channel by a handshake on the broadcast channel,
-- writes the reports and folds what it reads into a response, among keepalives, errors and other
-- clients' traffic. The NFC transport (crates/fidoh-transport-pcsc) selects the FIDO applet, wraps
-- a command in one or more APDUs and collects the response over 61xx and 9100 answers. The soft
-- token (crates/fidoh-transport-soft) is an authenticator in software, which keeps a PIN with its
-- tries and locks.
--
-- The files, and the code that each models:
--   Base             names of the libraries, `Outcome` for `Result`, bytes, lists and Boolean tests
--   Core/Status      crates/fidoh-core/src/status.rs: StatusCode, from_u8, to_u8, is_success
--   Core/Time        crates/fidoh-core/src/time.rs: Deadline with consume, consume_slice and wait;
--                    crates/fidoh-core/src/policy.rs: the slices
--   Core/Errors      crates/fidoh-core/src/error.rs: Error
--   Core/Selection   crates/fidoh-core/src/transport.rs: SelectionPolicy, apply_selection
--   Core/Cbor        crates/fidoh-core/src/cbor.rs: CborValue, its encoder in Core/Cbor/Encode and its
--                    decoder in Core/Cbor/Decode
--   Core/Messages    the members of a message, crates/fidoh-core/src/get_info.rs in GetInfo,
--                    get_assertion.rs beside it in GetAssertion, pin.rs in Pin and cose.rs in Cose
--   Core/Ceremony    crates/fidoh-core/src/error.rs: CeremonyError; and of ceremony.rs beside it, the
--                    actions and race in Run, the hops in Hops, the input and the request in Input,
--                    acquire_pin_uv_auth_token in Acquire, exchange_pipeline in Exchange, discovery
--                    and GetAssertionCeremony::run in Entry
--   Core/Crypto      crates/fidoh-core/src/crypto.rs: PlatformKeyAgreement, SharedSecret
--   Hid/Errors       crates/fidoh-transport-hid/src/error.rs
--   Hid/Packet       crates/fidoh-transport-hid/src/packet.rs and src/consts.rs beside it
--   Hid/Assembler    crates/fidoh-transport-hid/src/fsm.rs: Assembler and Fsm::step
--   Hid/Io           crates/fidoh-transport-hid/src/fd_wait.rs: read_report_bounded, and of fsm.rs
--                    Fsm::receive_loop
--   Hid/Fsm          crates/fidoh-transport-hid/src/fsm.rs: Fsm, its handshake and its transactions
--   Hid/Descriptor   crates/fidoh-transport-hid/src/descriptor.rs: find_fido_usage
--   Pcsc/Sw          crates/fidoh-transport-pcsc/src/sw.rs
--   Pcsc/Apdu        crates/fidoh-transport-pcsc/src/apdu.rs
--   Pcsc/Framing     crates/fidoh-transport-pcsc/src/framing.rs
--   Pcsc/Select      crates/fidoh-transport-pcsc/src/select.rs
--   Soft/ClientPin   crates/fidoh-transport-soft/src/auth.rs: the PIN state and its operations,
--                    PinAgreement in Agreement, client_pin_exchange in Exchange
-- The other children of a file hold what is proved of it; Examples hold concrete runs.
--
-- How the code is modelled. A byte or a word is a number of the native ℕ; wrap-around (`next_seq`,
-- the nonce counter, `as u16`) is written out. A method on `&mut self` takes the state and returns
-- it with its result. On an error the state is returned where the caller can go on with it, and
-- left out where the object is given up (the assembler and the exchange). A duration is its
-- nanoseconds; the atomic counter of a `Deadline` is used by one flow of control and is passed as a
-- state. The fd is what its nonblocking reads return, in order, and which of its writes fail; when
-- the list is at its end, nothing more comes. An fd that never runs dry is each of its finite
-- beginnings with `unfollowed` behind it, where a run is not followed further and has no result: in
-- the source a report that is ready spends no budget, so that such an fd can hold the loops of
-- fsm.rs for ever. Sleeping changes the budget only. The texts of errors are kept as the values
-- that they are formatted from.
--
-- An integer of a CBOR value is a whole number, a text is its UTF-8, and a usize has 64 bits.
--
-- A ceremony is an action on the budget and the state of what it calls: the device, the PIN
-- provider, the drain hook and the entropy, which are parameters, as are the operations of
-- crypto.rs: the record `PinCrypto`, which Core/Crypto fills. The hashes, the cipher and the curve
-- below those are parameters too, for they are other crates. A hop is what it ends with against the
-- timer of the remaining budget; without budget it is not polled. A panic of the source is an
-- outcome of its own; a `debug_assert!` panics as in a debug build. The loops over the entries of a
-- message's map are folds of one arm per key, over a record of the local variables.
--
-- Loops. The decoder runs on the levels of nesting that are left, four at the top, so it needs no
-- fuel, and its loops on the announced length. The loops over a message or over APDU data run on
-- the length of what is left. The read loop of the fd runs on the budget in nanoseconds, since each
-- empty round takes one at least; the receive and handshake loops on the number of reads that are
-- left, since each round takes one; the busy retry on the budget again. The draws of a key pair run
-- on the eight that the source allows, and the scan of a report descriptor on its length, since
-- each round takes a byte at least. Of the keepalive loop a given number of turns is followed,
-- behind which a run is `unfollowed`; a ceremony follows as many as keepalives can spend
-- nanoseconds of the budget, and one more. The loop of the source has no bound of its own, and a
-- device whose keepalives spend no budget ends it when it has no more of them.
--
-- Not modelled: display texts, and the details that errors format for people; the futures behind
-- the Transport and Device traits; the rest of the soft token, the walk over sysfs that finds HID
-- devices and the PC/SC engine; the command line and the async runtime, which are input and output.
pub mod Base
pub mod Core
pub mod Hid
pub mod Pcsc
pub mod Soft
