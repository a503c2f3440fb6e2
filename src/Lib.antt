-- ===== src/Lib.antt =====
-- SparkServer is a server for Particle-style devices: devices connect over TCP, open a session with a
-- hello, and exchange encrypted CoAP packets; services behind it keep devices, products, events,
-- webhooks, and the firmware that is sent to devices over the air.
--
-- The files and the code that they model:
--   Protocol/Coap (RoundTrip, Parsed, Extended): internal/protocol/coap/packet.go. `Packet` and
--     `CoapOption` are the structs; `marshal` and `parse` are Marshal and Parse, with writeOption,
--     parseOption, encodeExtended and decodeExtended. Coap/Helpers: coap/helpers.go.
--   Protocol/Particle: internal/protocol/particle/paths.go.
--   Protocol/Framing (Stream): internal/protocol/framing/framing.go. A reader is its bound and what
--     is left of the stream.
--   Protocol/Session (Padding, RoundTrip): internal/protocol/session/codec.go and session.go.
--   Protocol/Handshake (RoundTrip, Opened): internal/protocol/handshake/handshake.go.
--   Protocol/Tcp/Registry (Connected): internal/protocol/tcp/registry.go. The two maps are lists of
--     keys and values, and a client is a number; its calls are steps. Tcp/MessageIds: the IDs and
--     tokens of internal/protocol/tcp/client.go.
--   Firmware/Models, Effects, Job, Manifest (Cuts, Read), Ota and Signals: internal/firmware/models.go and ota.go,
--     with the constants of service.go. Models has the structs, Job what each operation assigns to a
--     job, Manifest buildChunkManifest and readChunkData, Ota the operations on jobs and Signals what
--     a device or a listing asks for. Effects has the state, a `World` of stored jobs, published
--     events, messages on the wire and a count of calls, and the environment, an `Env` of what may
--     answer or fail: store, transport, context, clock, file system. An operation is a function from
--     a world to a result and a world; a job that Go returns beside an error is part of the error.
--   Firmware/Reliable and Ota/Reliable, Parts, Started, Step, Pump and Start, and Signals/Chosen, Asked
--     and Resent: proofs over a store that does not fail.
--   Records, Records/Files and Effects: internal/jsonfile/store.go and the searches of repositories.go.
--     A directory of JSON documents is the list of its record IDs and records in the order of the
--     file names; a `Table` says which of the directories of a `World` an operation works on. Effects
--     has that world, with the firmware files and the state of the flash jobs, and the environment:
--     the context, failures of the disk, the clock and random IDs. Calls and Matches: what the store
--     leaves whatever fails, and what a search finds; Files/Directory: the files.
--   Devices/Models and Service (Ownership, Claims): internal/devices/models.go and service.go.
--   Products/Models, Slugs, Service (Found, Unique, Updated, Created, Ownership) and Members:
--     internal/products/models.go and service.go. Members has the devices of a product.
--   Firmware/Catalog, Catalog/Uploads and Selection (Current, Found, Written, Single, Operations):
--     internal/firmware/metadata.go and selection.go. `start_device_flash_of` gives StartDeviceFlash
--     the firmware that selectFirmware finds.
--   Events/Models, Broker (Streams), Service and Published: internal/events/models.go and service.go. A
--     subscriber's channel is what is buffered in it and what was taken from it.
--   Webhooks/Models, Backoff, Template, Service, Delivery, Attempted and Delivered:
--     internal/webhooks/models.go and service.go. The errors that DeliverEvent joins are the texts
--     in its error.
--   Auth/Models, Hex, Password and Service (Tokens): internal/auth/models.go, password.go and service.go.
--   Base: lists, bits, byte slices, results and sorting that the others share.
--   Examples: the theorems at concrete inputs, and runs.
--
-- A handshake reads one frame and gives the session whose key the codec takes; every later frame
-- holds a message of the codec, whose plaintext is a CoAP packet. The firmware service sends the
-- chunks of a file through a transport, one packet each, and marks each as it is accepted. The
-- services of devices, products and firmware share the records: a device belongs to a user and may
-- belong to a product, a product has firmware, and the firmware for a device is the one its link to
-- the product names, or the current one.
--
-- Numbers: a byte is a natural number below 256, and where the code converts to uint8 or uint16 the
-- model takes the remainder. Times are numbers, and the zero time is 0. A firmware version is an
-- integer; the next one wraps as Go's int does. Negative counts and offsets, which the code tests for
-- and does not make, are not representable.
--
-- Loops: the option loop of Parse runs on a fuel of one more than the bytes left, each round consumes
-- at least one. The loop of buildChunkManifest runs on one more than the size of the file, each round
-- reads a byte at least. PumpFlashJob runs on one more than the number of chunks, each round sends a
-- chunk that is not transferred. Where the code would loop on, the model returns `out_of_fuel`.
--
-- Parameters: sort.Slice (`Sorting`: a sorted permutation of its input), AES-CBC and HMAC-SHA1
-- (`Crypto`: lengths, and that decryption undoes encryption), the random source, the RSA key and
-- decryption of the handshake, the transport, the live client of devices, clock, identifiers, salts, SHA-256,
-- the contents of a file that is flashed, filepath.Join with the directory of the firmware files, and
-- what package strings does with text that is not ASCII, the client of the
-- webhooks and the order in which Go goes through a map. A stored record is a copy: the code's JSON
-- store decodes one for each call.
--
-- Not modelled: the text of error messages, what Go returns beside an error where the caller gets
-- both and the record is not a flash job, read errors in the middle of a file, and the locks of the
-- stores: each call of a store is one step, and an operation of a service runs to its end before
-- the next. The binary that an upload writes and the bytes of a file that is flashed are not joined.
-- JSON: a file holds the record that is read from it, and the records are those that the encoding
-- keeps. It does not keep a string that is not valid UTF-8; such strings in a record are outside the
-- model.
-- Also left out are the parts of the server outside the files above: the TCP server and the rest of
-- its clients, device messages, HTTP, and the command line.
pub mod Base
pub mod Protocol
pub mod Records
pub mod Devices
pub mod Auth
pub mod Events
pub mod Webhooks
pub mod Products
pub mod Firmware
pub mod Examples
