-- ===== src/Lib.antt =====
-- Greenlight, as far as its Rust code decides something of its own. A node runs in the cloud, and its
-- keys stay with signers on the user's devices. The plugin of the node (libs/gl-plugin) stages each
-- signature request together with the pending calls that led to it; a signer (libs/gl-client) merges
-- the state that comes with the request into its own, looks for a pending call that justifies the
-- request, signs, and sends its changed state back. The plugin also pays through trampoline nodes.
--
-- Prelude: shared names; Boolean tests on native numbers; lists; decimal text; `Run`, the outcome of
-- code that may fail or panic; `Outcome`, a result with its error; text as bytes.
--
-- Persist, libs/gl-client/src/persist.rs: the signer state. `Map` is the `BTreeMap` of strings, as a
-- list in ascending order. `Merge` has `State`, `merge` and `diff`; `Wire` the conversion to the
-- entries that travel over gRPC; `Store` the operations on nodes, channels, trackers and allowlists,
-- where `Serde` stands for serde_json. A write is an entry with a new version, a `u64` that wraps;
-- theorems about versions ask for one below the last. `Persister` is `MemoryPersister`, with the hex
-- form of ids as a parameter; its `get_nodes` is not modelled.
--
-- Signer, libs/gl-client/src/signer: `Model` has the pending calls of model and how they are decoded by
-- URI; `Resolve` is `Resolver::try_resolve` of resolve.rs, `Auth` is `GreenlightAuthorizer::authorize`
-- of auth.rs, with the parser of invoices as a parameter. Of mod.rs, `Rune` is `verify_rune` and
-- `create_rune`, with `Context` and `DefRules` of libs/gl-client/src/runes.rs; `Check` is
-- `check_request_auth`; `Process` is `process_request`, which merges the state of the request,
-- authenticates the pending calls, resolves the request against them, and has it handled; `Run` is the
-- loop `run_once` over the requests of a connection, `Schedule` the loops around it and the one
-- against the scheduler; `Pairing` is `process_pairing_approval`, with the device that asks for it,
-- libs/gl-client/src/pairing/attestation_device.rs; `Sign` has `sign_message` and its callers and the
-- startup messages. `Example` is a signer for the tests. Whether the signer is built with the feature
-- `permissive`, as it is by default, is a field of the record `Handler`: such a signer reports what the
-- resolver refuses, and handles it. Otherwise that record is the signer library VLS, the rune library is
-- `Runes`, and the signature check a parameter.
--
-- Plugin, libs/gl-plugin/src: `Stager` is the stage of stager.rs, `Context` the list of pending calls of
-- context.rs. A response channel is a number; whether it is still open is an argument. `Node` is what
-- node/mod.rs sends to a signer and does with its answer, and `configure`. `Awaitables` is the wait for
-- a channel of awaitables.rs, whose polls are a list. `Layer` is the layer of node/mod.rs in front of the
-- gRPC services, which puts a signed call in that context while it is handled; calls of others come
-- and go between its two halves. `Invoices` is `lsp_invoice` of node/mod.rs with the conversions of
-- requests.rs and responses.rs, `Peers` what is remembered of peers, in lib.rs, node/mod.rs and
-- node/wrapper.rs, `Wrapper` the node that callers see, node/wrapper.rs: its methods by name, and
-- `invoice` with its route hints. `Lsp` is the hook of lsp.rs, `Hooks` the other hooks of lib.rs and the
-- streams that listeners get their events from, `Messages` amounts and fee rates as text (requests.rs,
-- responses.rs, messages.rs), and `RpcWait` the wait for the socket of node/rpcwait.rs: at most twelve
-- rounds, since every sleep takes half a second of the five until the deadline. Sums and products of
-- amounts wrap around at 64 bits.
--
-- Client: what a device does, libs/gl-client/src. `Service` is `AuthService` of node/service.rs, which
-- signs each call; `Tls` has the identities of tls.rs and the node id in a certificate, utils.rs;
-- `Credentials` is credentials.rs, `Scheduler` `register` and `recover` of scheduler.rs, and `NewDevice`
-- the session of a device that asks to be paired, pairing/new_device.rs. Key pairs, certificates, base64,
-- the protobuf coding and the scheduler's answers are parameters.
--
-- Lnurl: `Pay` is the payment to an LNURL or a lightning address, libs/gl-client/src/lnurl, and `Withdraw`
-- the withdrawal by LNURL; HTTP, bech32, URLs, JSON and the parser of invoices are the record `Web`.
--
-- Util: `Error` is the error type of libs/gl-util/src/error.rs, with its way through a gRPC status.
--
-- Proxy: the signer proxy, libs/gl-signerproxy/src, between lightningd and the plugin. `Wire` has the
-- messages on the sockets (wire.rs, pb.rs) with the descriptors among their bytes (passfd.rs), `Requests`
-- the threads of hsmproxy.rs, whose rounds come in any order, and `Staging` the service of
-- libs/gl-plugin/src/hsm.rs that answers or stages a request.
--
-- Tlv, libs/gl-plugin/src/tlv.rs: `Proto` has the numbers of the wire format, `Stream` the streams.
-- `from_bytes` loops on fuel, the length of the input: each round reads two bytes at least.
--
-- Tramp, libs/gl-plugin/src/tramp.rs: `Allocation` is `find_allocation` by structural recursion on the
-- channels, its vector passed through as a value; `Order` the two orders in which it is tried;
-- `ErrorCode` the error codes; `Payment` is `trampolinepay` up to the first part, and `Payment.Send`
-- the rest with `do_pay`. `Service` is the handler of node/mod.rs that calls it. What core-lightning
-- answers, the waits for the peer and the channels, and the floating-point fee are the fields of the
-- records `Node` and `Sender`. Of an error the code is kept; its texts are a parameter of the handler.
--
-- Not modelled: the connections of the gRPC clients and servers, the throttle of the node's service,
-- storage files, the command line, the bindings, and generated code.
pub mod Prelude
pub mod Persist
pub mod Tramp
pub mod Tlv
pub mod Plugin
pub mod Signer
pub mod Proxy
pub mod Util
pub mod Lnurl
pub mod Client
