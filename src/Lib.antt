-- ===== src/Lib.antt =====
-- grout-cni: a CNI plugin that attaches pods to grout, a software router. The runtime calls the
-- binary once for each verb; the plugin reads its configuration, connects to grout's Unix socket,
-- takes a lock that all calls on the node share, and then works on three things that are not its
-- own: the reservations of the IPAM plugin, the interfaces of grout, and the pod's network
-- namespace. Nothing of its own is kept between two calls.
--
-- The parts, by file:
--   Base      shared names, results with errors and panics as values, the state monad with Go's
--             idioms (wrapping of errors, cleanup on an error, defer), and rules for invariants.
--   Wire      pkg/groutapi/protocol.go: headers, writeRequest and readResponse on a byte stream.
--   Client    pkg/groutapi/client.go: nextID, request and requestStream; below it the operations:
--             Dialling (Dial), Interfaces, Addresses, Routes and Floods, and what they put on the wire.
--   Grout     pkg/groutapi/types.go: interfaces and the requests on them.
--   Net, Hash, FilePath   what the program uses of Go's net, hash/fnv and path/filepath.
--   PortName  pkg/cni/portname.go: groutPortName and findPortByName.
--   Logging   pkg/cni/logging.go: the names of log levels, with spaces and letters as in UTF-8
--             (ConfigureLogging is in Main).
--   Config    pkg/cni/config.go: LoadConfig and bridgeNameFor.
--   Host      the calls that the handlers make, as events of a transcript.
--   Lock      pkg/cni/lock.go, and the locking that opens every handler.
--   Bridge    pkg/cni/handler.go: ensureBridge and gcBridgeIfEmpty with their searches.
--   Ipam      pkg/cni/handler.go: gatewaysFor, podResult and vhostResult.
--   Handlers  pkg/cni/handler.go: HandleAdd, HandleDel, HandleCheck and HandleGC.
--   Router    what the handlers rely on of grout behind GroutClient, as a record of laws, and what the
--             handlers then do to the interfaces that grout holds.
--   Remote    the interface GroutClient of pkg/cni/handler.go with *groutapi.Client behind it: what the
--             two sides say on the wire while a command runs, and the command over the wire.
--   Netns     pkg/cni/netns.go: moveLinkToNamespace, configurePodInterface and verifyPodInterface, over
--             a namespace that answers netlink calls. Host has them as calls with any answer.
--   Main      cmd/grout-cni/main.go: the commands for the verbs.
--   Tests     concrete runs, and the theorems at concrete inputs.
--
-- State and operations. A function that works on a state is a function from the state to its outcome
-- and the next state (Base.State). For the client the state is the connection, with the bytes that
-- will arrive, the bytes sent and the outcome of coming writes, and the request counter. For the
-- handlers it is the transcript of the calls made so far, the newest first. The environment
-- (Host.Env) answers each call by an arbitrary function of its arguments and the transcript, which
-- stands for any order of successes and failures. Functions that tests inject have
-- the defaults of production. The lock is per call: other processes act through the answers.
-- SHA-256, the json decoder, the conversion of CNI results, the IPAM plugin and grout are parameters.
-- Of grout it is assumed, where a theorem takes a Router, what is documented of it: unique ids and
-- names, and what its list, add, delete and flush do. Tests.Simulated has a grout that meets this.
-- What is assumed of SHA-256 is what its documentation says, 32 bytes (PortName.Shape.IsSum256).
--
-- Bounds and fuel. Integers are natural numbers; where Go wraps, the remainder is written out. The
-- loop of requestStream runs on fuel, one round more than there are bytes to arrive: each round takes
-- at least the twelve bytes of a header or ends (Client.Ending). All other loops go over lists. The bytes
-- that will arrive are a finite list, behind which reads report the end of the stream: a peer that
-- stalls, or sends items for ever, is not modelled, and Go's loop has no bound or deadline against it.
--
-- Not modelled: the texts of errors beyond the place that made them, what is logged, and
-- process exit. vdevID is modelled for ASCII names, which port names are.
pub mod Base
pub mod Wire
pub mod Client
pub mod Net
pub mod Hash
pub mod FilePath
pub mod Grout
pub mod PortName
pub mod Logging
pub mod Config
pub mod Host
pub mod Lock
pub mod Bridge
pub mod Ipam
pub mod Handlers
pub mod Router
pub mod Remote
pub mod Netns
pub mod Main
pub mod Tests
