-- ===== src/Lib.antt =====
-- ip-utils: framing, URLs, errors and sessions of a TCP/IP library.
--
-- A session (TCPSession.cc) owns two memory buffers. Bytes from the connection are appended to the
-- incoming one; a message header (MsgHdr.cc) is parsed from its front, by HTTPFraming.cc for the
-- HTTP kind, which in turn lets URL.cc parse the URI. Outgoing messages are queued: the header in
-- the outgoing buffer, the body there too or in a file, and a MsgInfo for each. The bytes go to the
-- connection: SSLConn.cc hands them to OpenSSL or, with no SSL object, to TCPConn.cc, which is an
-- IPComm.cc (a socket, its flags, its address and its names) with the calls for streams. Every
-- routine reports a failure to one global ErrorHandler (ErrorHandler.cc), to which its callers add
-- notes. Logger.cc keeps a priority for each place that messages go to. Base64.cc and
-- MIMEFraming.cc stand by themselves.
--
-- Which file models which part:
--   Base            bytes, C strings, snprintf, decimal numbers, strtol, strncasecmp, walks
--   ErrorHandler    ErrorHandler.cc: Init, AppendMsg, clear, print
--   Base64          Base64.cc: Base64Encode, Base64Decode; Base64/Tables the bit tables
--   Url             URL.cc: the setters, set_path, set_query
--   Url/Parse       URL.cc: InitFromBuf, one function for each commented part of it
--   Url/Print       URL.cc: print_abs_path, print_absoluteURI
--   Http            HTTPFraming.cc: tables, accessors, set_connection, AppendMsgHdr, Init*
--   Http/MsgHdrLine  HTTPFraming.cc: ParseMsgHdr
--   Http/StartLine  HTTPFraming.cc: what the two header parsers share, and the loop over the headers
--   Http/Request, Http/Response  HTTPFraming.cc: ParseRequestHdr, ParseResponseHdr
--   Http/Chunked    HTTPFraming.cc: ParseChunkedMsgBody
--   Http/InitFromBuf  HTTPFraming.cc: InitFromBuf
--   Http/Print      HTTPFraming.cc: print_msg_hdrs; Http/Print/Hdr print_start_line, print_hdr, print
--   MsgHdr          MsgHdr.cc: the header of a message, of the BASIC or the HTTP kind
--   MsgHdr/InitFromBuf  MsgHdr.cc: InitFromBuf, the printers, GetMediaTypeExt
--   File            File.cc, Descriptor.cc: files that share counted descriptors
--   File/Names      File.cc: names, paths, Open
--   File/Moves, File/Copies  File.cc: Fopen, Unlink, Rename; Copy
--   Session         TCPSession.cc: the state, the queries, ResetWbuf, delete_whdr
--   Session/Outgoing  AddMsgBuf, AddMsgFile, PopOutgoingMsgQueue
--   Session/Write   Write, with its two ways for a body in memory and in a file
--   Session/Header  InitIncomingMsg
--   Session/Copy    the copy constructor
--   Url/Compare     URL.cc: CompareTuples
--   Net             IPComm.cc, TCPConn.cc: the state of a connection, its port and hostname
--   Net/Write, Net/Read, Net/Line  TCPConn.cc: Write; Read and ReadExhaustive; ReadLine
--   Net/Flags       IPComm.cc: the flags of a socket, Socket; TCPConn.cc: Close
--   Net/Resolve     IPComm.cc: Init, InitServer, ResolveDNSName, get_reverse_dns, print
--   Net/Tcp         TCPConn.cc: Connect, Bind, Listen, Accept, Getsockname
--   Net/Datagram    IPComm.cc: Sendto, Recvfrom, Sendmsg, Recvmsg, Getsockopt, Setsockopt
--   Net/Checksum    IPComm.cc: calculate_cksum
--   Net/Tls         SSLConn.cc: Write, Read, Shutdown; Net/Tls/Handshake Socket, Connect;
--                   Net/Tls/Accept Accept
--   Net/Tls/Context  SSLContext.cc: Init, ssl_err_str, pem_passwd_cb
--   Net/Shared      IPComm.cc, SSLConn.cc: the copies, assignments, clears and ends of connections
--                   that share a Descriptor and an SSL object
--   Logger          Logger.cc: the priorities, InitLogFile, Log; Logger/Arg the argument parser
--   Mime            MIMEFraming.cc: print_hdr
--   Session/Incoming  Init, Read, ShiftRbuf, ResetRbuf, ClearIncomingMsg, StreamIncomingMsg
--
-- How the code is read: a `char*` is an Option of its bytes, where `none` is NULL, and a byte is a
-- native number. A walk pointer and its count of bytes left are one list. A routine that changes
-- its object or the ErrorHandler takes both and returns both. An int or long that a text is read
-- into is its bit pattern; sizes of buffers are taken to be below 2 ^ 63. A memory block is the list
-- of its bytes and memcpy and memmove are copies into it.
--
-- Bounds and fuel: `decimal` makes 20 steps, enough for a number below 10 ^ 20. The loop of
-- set_query runs on as many steps as the query has bytes and one more, and each step takes at
-- least one byte. The loops over the parameters of a header line, over the message headers and
-- over the chunks of a body run on the same number of steps. The write loop of TCPConn.cc runs on
-- one step more than it has bytes, since each round that goes on sends one, and gives `none` out
-- of fuel; the loop of ReadExhaustive on one more than its buffer has room, and the loop of
-- Sendto on two rounds more than it has bytes, of which it needs two where a send takes
-- something: both give `over` out of fuel. The checksum folds its sum at most three times. The
-- lookup of a name runs on its count of retries. The two loops of File::Copy take their fuel as
-- arguments: a round for each byte of the file and one more, and two rounds for a chunk, are
-- enough where a write takes all that it is offered.
--
-- Parameters: realloc, SSLConn::Read and SSLConn::Write, File and the file system calls are fields
-- of the record `Os` that the session's operations take. The copy constructor takes the results of
-- malloc as arguments. The calls on a socket (write, read, fcntl, socket, close) are fields of
-- `Kernel`, connect, bind, listen, accept and getsockname of `Sockets`, those for datagrams and
-- options of `Datagrams`, the resolver's calls of `Resolver`, those on open files of `Disk`, and
-- those of OpenSSL of `OpenSsl`, `Handshakes`, `Servers` and `Contexts`, where the first three also
-- give the text of a message behind the name of its routine; each takes a state of the system and
-- gives the next. The table prioritynames of sys/syslog.h is an argument of the functions that
-- search it.
--
-- Not modelled: the scratch arrays that the parsers of URL.cc and HTTPFraming.cc copy into
-- without a test of their size; the end of the heap block behind a chunk that is longer than it
-- announces; the int in which Base64.cc keeps a length; the output of log messages, whose calls
-- of syslog(3), fopen(3) and fprintf(3) have no result that the program reads; the mutexes of a
-- session, whose operations are single steps here, so neither is the one that InitIncomingMsg
-- keeps where calloc(3) fails; code that the preprocessor removes, such as print_xmlt of URL.cc,
-- ReadLine of SSLConn.cc and the second half of SSLContext.cc; RefCount.cc, a second text of
-- Descriptor.cc; the tests by stat(2) of File.cc; SOAPFraming.cc and Template.cc, which do not
-- compile.
pub mod Base
pub mod ErrorHandler
pub mod Base64
pub mod Url
pub mod Http
pub mod MsgHdr
pub mod Session
pub mod File
pub mod Net
pub mod Logger
pub mod Mime
mod Tests
