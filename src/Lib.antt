-- ===== src/Lib.antt =====
-- abstraction-identity: what a service learns about the peer of a local connection, how strongly
-- each attribute is proven, and bounded frames, sessions and server checks over such connections.
--
-- The parts and the files that model them:
-- - Base: shared names, Boolean tests, list lemmas, Go strings as byte lists, Go's signed ints.
-- - Proof: proof.go. A rung is a number of a uint8; Attr welds a value to its proof (at_least is
--   AtLeast). Proof/Ladder has its lemmas.
-- - Errors: the sentinel errors and wrapping by fmt.Errorf, errors.Join, errors.Is and errors.As.
-- - Peer: peer.go. check is Peer.Check, can_ever is Limits.CanEver, record_code is recordCode; the
--   records stand in Peer/Types and the String methods in Peer/Text.
-- - Transport: transport.go, CeilingFor.
-- - Binding: bind.go. One state behind the owner and its shared views; each operation runs under
--   the lock, so a run is a list of operations. The state keeps the calls that reached the
--   platform's handle, and what the platform answers is an argument.
-- - Program: program.go. The path library and the file system are the record Files.
-- - Helper: helper.go, CheckElevatedHelper.
-- - Listen/Wire, Listen/Stream: the 32-bit header, and streams: the bytes to come and the error
--   behind them, or a function that answers how much a Write took.
-- - Listen/Frame: listen/framed.go (writeHeadedCount, readFrame, waitFrameEOF).
-- - Listen/Refusal: listen/proof_refusal.go.
-- - Listen/Session: the server half of listen/session.go: session limits and retirement, with
--   after_call the tail of run's loop and next_header nextHeader. Listen/Session/Admission has the
--   accept loop's counts and prepare's admission; Listen/Session/Call has sessionCall. What the
--   connection does and whether the binding has expired by then are arguments.
-- - Listen/Session/Pending: a connection before it is a session, in listen/session.go: its owner
--   (pendingSessionConn), its first header (firstHeader, prepare) and replayConn.
-- - Listen/Pool: listen/pool.go, the pool of one key.
-- - Listen/Client: listen/pool.go, one call through the pool: turn is a round of sessionCall's loop
--   and session_call the loop; an Attempt holds what the world answers in a round, and finish
--   hands the connection to the pool.
--   Listen/Client/Fallback is the whole call of listen/framed.go, with its single exchange.
-- - Listen/Receive: listen/framed.go, ReceiveFramed on a stream connection.
-- - Listen/FramedCall: listen/framed.go, FramedCall: its methods as steps.
-- - Listen/Server: listen/server.go, ServerExpectation and serverConn's checks; Listen/Server/Dial
--   has authenticate, use and Close, and the dials of listen/framed.go and listen/pool.go.
-- - Listen/Admission: listen/admission.go; the map is an association list.
-- - PathIdentity: pathidentity.go. The path library and the file system are the record Tree.
-- - Linux/Loopback: loopback_linux.go, bindLoopback and its recheck, over what procfs answers.
-- - Linux/Proc, Linux/Sandbox: procfs_linux.go, the reading of text, and sandboxPackage.
-- - Linux/Unix: identity_linux.go: of_handle is ofHandle, over a Handle that holds what the kernel
--   and procfs answer to each question, and ceiling the ceiling. Linux/Unix/Bind: bind_linux.go,
--   bindHandle, recheck and release; the descriptors that were opened and closed are kept.
-- - Windows/Verdicts: verdicts_windows.go, the cache of verdicts on code: begin is
--   verifyProcessImageAt up to the verification and complete its deferred end. The map is an
--   association list, each critical section one operation, and a run any order of them; the handles
--   that were duplicated and closed are kept.
-- - Volumes: localpath_statfs.go: the probes of volumes and their counters, as steps. Volumes/Mounts
--   has mountOf, unalias and the table of mounts; Volumes/Local localPath and volumeLocal.
-- - Api: go/abstraction/identity/api/rec.go. Api/Write and Api/Read have strings and escapes, Api/Utf8
--   UTF-8, Api/Words the words of Proof, Api/Records the two records. A reading takes the bytes from
--   the reader's position on; members is the loop of both decoders.
-- - Examples: the properties at concrete inputs.
--
-- They meet as in the code: sessions carry the frames' headers, refusals travel where a frame's
-- header would, a server check asks a binding and compares programs, and policies decide over the
-- peer that a binding captured.
--
-- Fuel and bounds: write_part has one round more than its part has bytes, and a round takes a byte
-- or ends the loop. A decimal number is printed in as many rounds as a 64-bit number has digits.
-- Times are nanoseconds as natural numbers, 0 the zero time. A binding's maximum age is set by the
-- session options, and sums of times do not overflow.
--
-- The loop of sessionCall has three rounds, as in the code. climb and within_loop have one round
-- more than the path has bytes, and so has volume_local; going up shortens a path. str_loop and members
-- have a round more than there are bytes to read, and a round takes a byte or ends the loop.
--
-- Not modelled: code that is for the most part calls of the platform: identification and
-- binding over Windows pipes and on macOS, Authenticode and code signing, the keys of files,
-- the volume checks of Windows and macOS. The message transport, the waits of the session
-- listener's Close, the texts of the errors of the Linux bindings, what callers that wait for
-- a verification are handed, the codec's numbers, raw values and maps, and the implementations
-- in other languages are left out. A probe's wait for its channel is a further round of
-- startProbe. A read pending at a session call's Close has ended before Close decides, so it
-- stands before it in the list of uses. What a connection gives to be read is given before a
-- call begins and does not depend on what the call writes.
pub mod Base
pub mod Proof
pub mod Errors
pub mod Peer
pub mod Transport
pub mod Binding
pub mod Program
pub mod Helper
pub mod PathIdentity
pub mod Linux
pub mod Windows
pub mod Volumes
pub mod Listen
pub mod Api
pub mod Examples
