-- ===== src/Lib.antt =====
-- zonal-zero-trust-auth: a gateway authenticates the nodes of a vehicle over SOME/IP with an
-- SPDM-like challenge and response, keeps their session keys in a table with expiry and lockout,
-- and lets the host stack ask whether a client may talk. This library models the C++ of src and
-- include/zzta and proves what its parts guarantee.
--
-- The parts. A SomeIpAdaptor owns a pool of SpdmProtocolEngine, one for each bound peer, and one
-- TokenLifecycleManager. The hooks of the host stack look up the peer's slot, run the engine on the
-- decoded frame, and register the token of an accepted response with the manager. The manager keeps
-- eight token slots and, in a StaticCircularBuffer, the order in which to evict them. The engines
-- reach a CryptoPlatformInterface for nonces, digests, signatures and keys; all that is proved of
-- them holds for every platform, of which the SoftwareCryptoProvider is one.
--
-- Files, by the code they model (Engine/Data, Tlm/Data and Adaptor/Data hold the types of their parents):
--   Platform      include/zzta/CryptoPlatformInterface.hpp: sizes, arrays, CryptoStatus, the interface
--   Crypto        src/CryptoPlatformInterface.cpp, the software provider: Crypto/Words, Crypto/Constants,
--                 Crypto/Sha256 and Crypto/Provider model it, the other children are about nonces,
--                 sizes, the signature check and the key derivation; Crypto/Endian is about loads and
--                 stores, Crypto/Fips is SHA-256 as FIPS 180-4 has it, Crypto/Digest, Crypto/Padding
--                 and Crypto/Blocks compare the program with it, and
--                 Crypto/Loop has the loop over the blocks with its condition
--   Version       include/zzta/ZztaVersion.hpp: the version word, the strings and the
--                 version check
--   ConstantTime  the comparison and sentinel loops of the three .cpp files
--   Ring          StaticCircularBuffer in include/zzta/TokenLifecycleManager.hpp; Ring/Fifo is its
--                 abstract specification, Ring/Window and Ring/Refine the refinement
--   Engine        src/SpdmProtocolEngine.cpp; Engine/Request is about one request, Engine/Handshake
--                 about one response, Engine/Revoked about engines that were revoked,
--                 Engine/Transitions about histories of calls, Engine/Replay
--                 counts challenges and responses, Engine/Typed is about the sizes of its arrays
--   Tlm           src/TokenLifecycleManager.cpp; Tlm/Invariant is the invariant, Tlm/Register,
--                 Tlm/Sessions, Tlm/Revoke and Tlm/Expiry are about the operations, Tlm/Slotwise and
--                 Tlm/Lockout about relations that all of them respect, Tlm/History about histories,
--                 Tlm/Counter about the anomaly counter of a slot, Tlm/Barred about
--                 slots that are lost, Tlm/Persistence about what
--                 leaves a session alone, Tlm/Spec is an abstract table of sessions and its children the refinement
--   Adaptor       src/SomeIpAdaptor.cpp; Adaptor/Valid is the invariant, Adaptor/Events the histories of
--                 hook calls, Adaptor/Hooks shows that each hook keeps the invariant, Adaptor/Gate is
--                 about IsSessionActive and RevokeSession, Adaptor/Lockout about clients that are
--                 barred, Adaptor/Pool about the slots and their engines, Adaptor/Login about a
--                 complete login, Adaptor/Software about the adaptor on the software provider,
--                 Adaptor/Typed about the sizes of arrays, Adaptor/Refusals about refused calls,
--                 Adaptor/Replay about challenges and admissions counted,
--                 Adaptor/Offer about all the answers to an offer and about a pool that is full,
--                 Adaptor/Request and Adaptor/Response about all the answers to a frame,
--                 Adaptor/Calls about what a hook call does to the session manager,
--                 Adaptor/Housing about the clients of the table and their slots in the pool,
--                 Adaptor/Availability about sessions that last, Adaptor/Interleaved about logins at
--                 the same time; Adaptor/Spec is an abstract table without capacity, and its
--                 children the refinement
--   Base          shared tests, lists, searches and bit operations
--   Tests         a toy platform, concrete runs, and the theorems applied to them
--
-- How the pool and the table interact. OnPeerOffered binds a slot of the pool to a client, and no
-- hook unbinds it; the pool and the table both have eight slots, and a client reaches the table
-- only by a response that is handled at its slot of the pool. RevokeSession hands any identifier to
-- the manager, the all-zero one too, which is that of a slot of the table never used; statements
-- about the table through the adaptor say where they leave such calls out.
--
-- State and operations. Each class is a record of its fields, and each method a function that
-- returns its status, the values of its out parameters and the new object; names are the source's
-- in snake case. A method of the platform takes and returns the platform's own state, which the
-- engines share, so the adaptor carries it. A null pointer is none. A callback is foreign code: the
-- manager lists the identifiers notified and the adaptor the frames transmitted.
--
-- Numbers. All are natural numbers; the words of SHA-256 and of the LFSR wrap at 2^32, and
-- std::memcpy of a word is that of a little-endian host; size_t sums and the age of a session are
-- taken modulo 2^64, casts to a byte modulo 256, the anomaly counter stops at 255 as in the source.
-- Loops over arrays are structural recursions on the array or on the number of rounds, so nothing
-- runs out of fuel; the loop over the blocks of a message is given with fuel too, and any fuel
-- above the number of blocks is enough. Reads of an array out of range do not occur for valid
-- states and give a default element.
--
-- Not modelled: timing, the compiler's freedom around volatile, threads, frame padding (the layouts
-- are asserted by the source), the reserved_ bytes of a slot, tests, build files and documents. The
-- callbacks are taken not to call back into the objects, as their documentation demands.
pub mod Base
pub mod Platform
pub mod Version
pub mod ConstantTime
pub mod Crypto
pub mod Ring
pub mod Engine
pub mod Tlm
pub mod Adaptor
pub mod Tests
