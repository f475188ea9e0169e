-- ===== src/Lib.antt =====
-- drop-file: a server that passes one file from a sending client to a receiving one, over TLS. A
-- sender registers with a message that describes its file and is given a code of two words and a
-- number; the receiver presents the code, the server looks the sender up, and then copies the
-- sender's messages to the receiver until the announced size has gone over.
--
-- How the parts interact, and which file models which:
--   * Network: boost::asio and fmt, which are not in the repository, as the record `Net` of operations
--     and of the laws that the code relies on. A `Stream` is one connection as its owner sees it: what
--     the peer has sent before it closes its side and is not read yet, what was written, and how much
--     more the connection takes before it breaks. A read past the end throws, as on a side that was
--     closed. Tests/Wire is an implementation of it.
--   * Outcome, Result: C++ exceptions as values, with the state that outlives them.
--   * Socket: SocketBase (include/SocketBase.hpp, src/SocketBase.cpp). One function for each method;
--     the loop of `send` is a recursion on accessibility. Its children hold the length header (Header),
--     the frames on the wire (Framing), receiving them (Receive, RoundTrip), hostile input (Hostile)
--     and how connections end (Disconnect).
--   * Json: nlohmann::json, which is not in the repository, as the record `JsonLib` of operations and
--     laws. Tests/Values is an implementation of it.
--   * InitSessionMessage: include/InitSessionMessage.hpp, src/InitSessionMessage.cpp.
--   * SessionsManager: include/server/SessionsManager.hpp, src/server/SessionsManager.cpp, and getRandom
--     and pickRandom of src/Utils.cpp. The map of waiting senders is an association list. Each public
--     method holds the mutex, so each is one step on the manager's state. The loop of registerSender
--     runs on the list of what the random engine gives: when it ends is stated of that list. Runs holds
--     the step relation for sequences of these methods, called by the sessions and the thread that
--     removes timed-out senders; Refines is about these and a partial map. Construct is about the
--     constructor, which takes its words from JsonWords.
--   * Utils: bytesToHumanReadable of src/Utils.cpp, and in Hash calculateFileHash, on OpenSSL's digest
--     functions as a record; its loop runs on a round for each byte of the file and two.
--   * JsonWords: extractWords of include/server/JsonWords.hpp.
--   * ServerSideClientSession: include/server/ServerSideClientSession.hpp and
--     src/server/ServerSideClientSession.cpp. A `World` is the manager and the sockets of all sessions;
--     a session is a number, which stands for the identity of its object. The transfer loop of
--     receiveFile runs on fuel: each round takes one message, so as many rounds as the sender wrote
--     messages are given. Relays and Registers are about sessions that keep to the protocol. Raises and Contained say what a handler throws, Sound and Keeps what it leaves
--     of the manager, Waiting and Ends that it ends.
--   * DropFileServer: include/server/DropFileServer.hpp. The handlers that the io_context runs for a
--     finite number of completions, one after the other, on the sessions that were made and on those whose first message is awaited; which
--     of them completes next is left open. Runs is about any sequence of them, Serves about their end, Starts about a server
--     that was just made. remote_endpoint and the TLS handshake are the record `Tcp`.
--   * Streams: what the client uses of std::istream and std::ostream on a file: its bytes, a position,
--     and failbit.
--   * FsEntryInfo: include/client/FSEntryInfo.hpp, src/client/FSEntryInfo.cpp, and getRemainingBytes of
--     src/Utils.cpp: the header of an entry of an archive. Its children hold the reads (Reads), the
--     bytes of a header (Format), writing them (Writes) and reading any bytes (Untrusted).
--   * Zstd: include/client/zstd.hpp and src/client/zstd.cpp. libzstd, which is not in the repository, is
--     a record of calls, and Laws what its manual says of them. The inner loops run on as many calls as
--     the library takes for one buffer at most, the outer ones on a round for each byte and two. Chunks
--     and Pieces hold the inner loops, Rounds one round of the outer loop of compress. Tests/Codec is an
--     implementation of the library.
--   * ArchiveManager: include/client/ArchiveManager.hpp and src/client/ArchiveManager.cpp, on
--     FsEntryInfo and Zstd. A directory is a tree in the order of its iterator; the disk that is unpacked
--     to is a parameter. Format says which bytes hold which items, Creates is about createArchive,
--     Stores about one entry, Unpacks about the loop of unpackArchive, whose fuel is a round for each
--     byte of the archive, and RoundTrip about both.
--   * DropFileReceiveClient: include/client/DropFileReceiveClient.hpp and
--     src/client/DropFileReceiveClient.cpp: the response of the server (Response, Answers), the user's
--     confirmation (Confirmation), the file (Stores) and its hash (Hashes). Whole is receiveFile, which
--     joins them, with handleCompressedFile, the constructor and the destructor, on what the machine
--     gives beyond the files by path. Looking at a path may fail, a directory may stand there, and a file
--     may not open for writing; Receives is about receiveFile on a server that keeps to the
--     protocol, Steps and Arrives on any server. The loop of
--     receiveFileImpl runs on fuel: each round takes one message.
--   * DropFileSendClient: src/client/DropFileSendClient.cpp: getReceiveCodeFromServer (Code) and
--     sendFSEntry (Sends). How much readsome has at hand is a parameter; the loop runs on a round for
--     each byte of the file and one. Whole is sendFSEntryMetadata and compressIfNecessary, which join
--     the parts, in the scopes of the owners of the file (RaiiFsEntry: include/client/RAIIFSEntry.hpp)
--     and between the constructor and the destructor; Removes and Cleans are about what these leave of
--     the files, Announces about a file that is no directory.
--   * Delivery: sendFSEntry, the transfer loop of the server and receiveFileImpl, each on what the one
--     before it has written; in Session sendFSEntry, the handler of the receiver's first message and
--     receiveFile up to the check of the hash, in EndToEnd sendFSEntryMetadata and the sender's session
--     before these.
--   * ClientArgParser, ServerArgParser: src/client/ClientArgParser.cpp and
--     src/server/ServerArgParser.cpp, on what argparse, which is not in the repository, reads from the
--     command line; Parses is parseClientArgs as a whole, which main calls.
--   * ClientSocket: include/client/ClientSocket.hpp and src/client/ClientSocket.cpp: which certificates
--     are accepted, connect, and in Threads who owns the io_context and the thread that runs it.
--   * Applications: apps/drop-file.cpp, on what the two clients do; server_main of ServerArgParser is
--     apps/drop-file-server.cpp.
--   * Tests: instances of the parameters, and the theorems at concrete inputs.
--
-- A byte is a natural number, and a std::string a list of them. A std::size_t is a natural number
-- whose wrap-around is written out where the code can reach it.
--
-- Not modelled: a peer that stays silent on an open connection, or that stops reading, blocks a read
-- or write of the program, and these calls have no time limit; what is said of an end is about
-- connections whose peer closes its side. A disk that is full when a file is written, and a file
-- system that changes under the program, are left out too. So are the set-up of TLS contexts, what
-- the client's io_context runs, the texts of the options' help and the progress bars, which only
-- call libraries, and what is printed or logged, except what is computed for it and can throw.
-- createArchive does not look whether the new archive is open: it is taken to be. remove_all of the
-- sending client is taken not to throw; in a destructor that would end the program. So are its looks
-- at whether a path exists or is a directory. The code of a system_error is not kept, so that the
-- hint about certificates is a function of its own.
pub mod Common
pub mod Outcome
pub mod Network
pub mod Socket
pub mod Result
pub mod Json
pub mod InitSessionMessage
pub mod SessionsManager
pub mod Utils
pub mod ServerSideClientSession
pub mod Streams
pub mod FsEntryInfo
pub mod DropFileReceiveClient
pub mod DropFileSendClient
pub mod Zstd
pub mod Applications
pub mod ArchiveManager
pub mod Delivery
pub mod DropFileServer
pub mod RaiiFsEntry
pub mod ClientArgParser
pub mod ClientSocket
pub mod ServerArgParser
pub mod JsonWords
pub mod Tests
