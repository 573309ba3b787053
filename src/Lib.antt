-- ===== src/Lib.antt =====
-- Novagate: a gateway for framed binary messages over TCP, and the access-control service beside it.
--
-- The parts and how they interact. Bytes arrive on a connection and are buffered (conn_handler.go)
-- within a quota (conn_ctx.go). The protocol package finds frames in the buffer (protocol/frame.go),
-- decompresses their bodies (protocol/compress.go) and reads messages (protocol/message.go). Each
-- frame pays a token (conn_ctx.go); its message goes to the handler of its command (router.go), and
-- the handler's response is written back as a frame. main.go accepts the connections. The kitex codec
-- (internal/codec/message_codec.go) carries RPC messages in the same frames, with commands that
-- protocol/mapper.go gives to method names. The access-control service (services/acl) keeps who may
-- read which document of a tenant. The admin service (internal/admin) keeps users, documents, their
-- permissions and an audit log in Redis, and searches them in Milvus; cmd/admin routes its requests.
-- cmd/validate-commands checks that the commands of the program are wired consistently.
--
-- Which file models what:
--   Base             shared helpers: Boolean tests, lists and integers over the native numbers, Go's
--                    (value, error) pairs, and Go maps as association lists.
--   Protocol/Bytes   byte slices and encoding/binary's big-endian words.
--   Protocol/Frame   protocol/frame.go: Decode is `decode`, Encode is `encode`.
--   Protocol/Message protocol/message.go: EncodeMessage, DecodeMessage, and protocol/commands.go.
--   Protocol/Compress protocol/compress.go: ValidateFlags, EncodeFrameBody, DecodeFrameBody.
--   Protocol/Mapper  protocol/mapper.go: the package variables are the record `Mapping`, and each
--                    function takes one and returns one.
--   Server/Context   conn_ctx.go: the record `ConnContext`; Reserve, Release and Allow, in int64.
--   Server/Router    router.go, and BridgeProtocolHandler of main.go.
--   Server/Registry  internal/dispatcher and internal/service.
--   Server/Wire      what a connection's goroutine reads and writes as it handles frames.
--   Server/Handle    handleFrame and writeAll of conn_handler.go, as actions on `Wire`.
--   Server/Conn      handleConn, readIntoBuffer and processBufferedFrames of conn_handler.go.
--   Server/Listen    main.go: options, the address, acceptLoop, and every way to start a server.
--   Server/Program   cmd/server/main.go: setup.
--   Codec            internal/codec/message_codec.go.
--   Acl/Model        services/acl/internal/acl/store_interface.go, and instants.
--   Acl/Nested       the maps of maps of inmemory_store.go.
--   Acl/Memory       services/acl/internal/acl/inmemory_store.go: one function per method of the store.
--   Acl/Docs         lists and sets of document ids.
--   Acl/RedisServer  what the Redis store uses of go-redis and of a server.
--   Acl/RedisStore   services/acl/internal/acl/redis_store.go: one function per method of the store.
--   Acl/Endpoint     services/acl/biz/handler/acl.go: one function per endpoint, over the interface
--                    `Store`, which both stores fill.
--   Acl/Agree        the two stores side by side.
--   Acl/Start        services/acl/config.go, and services/acl/main.go up to the choice of the store.
--   Config           cmd/server/config.go: `load_config` is loadConfig; Config/Flags is the part of Go's
--                    flag package that it uses.
--   Stats            services/acl/biz/handler/stats.go: INFO and the query here, the sampling in Stats/Keys
--                    and Stats/Sample, ACLStats in Stats/Endpoint.
--   Admin/Text       strings, numbers and splitting, as internal/admin uses them of Go's library.
--   Admin/Redis      what internal/admin uses of go-redis and of a server.
--   Admin/Env        the servers and functions that the handlers take from outside, and their answers.
--   Admin/Pages      parsePagination and the page of a listing of internal/admin/service.go.
--   Admin/Search     internal/admin/search.go: collections, indexing and searching.
--   Admin/Service    internal/admin/service.go: one function per handler, on a `World` of two servers, in
--                    Admin/Service/Writes and Admin/Service/Reads.
--   Admin/Start      NewService and NewSearchService.
--   Admin/Routes     cmd/admin/main.go: `serve` sends a request to its handler, as the API routes do.
--   Validate         cmd/validate-commands/main.go: the scan in Validate/Scanning, the checks in
--                    Validate/Checks, and run, up to the exit code, in Validate/Program.
-- A module named Tests holds runs on small inputs.
--
-- Numbers. A byte, a uint16, a uint32 and a uint64 are natural numbers, with the wrap-around written
-- where the source computes; an int64 is an integer that `wrap64` brings back into its range. A
-- duration is an int64 of nanoseconds, an instant a natural number of nanoseconds since the earliest
-- instant.
--
-- Errors are values of a type per component. A panic is one too: `encode` is then `none`, and
-- `frame_panic` ends a connection in a state that no caller sees. A lock makes each call one step.
--
-- The network, the clock and compress/gzip are parameters: a list of what conn.Read answers, one of
-- what conn.Write answers, a function for the clock's readings, and the record `Gzip`. Where a list
-- ends the call has not returned yet, which is `waiting`, `write_blocked` or `accepting`. What gzip
-- promises is the hypothesis `IsFaithful`: a reader over compressed data yields the data and then EOF.
-- The client of Redis is the record `Redis`, and `IsRedis` says what a pipeline leaves on the server: the
-- documented effects of its commands, of all of them in order if there is no error, else of some of
-- them. One key is used for one type of value only. UUIDs and times are parsed by the record `Parsers`.
--
-- The admin service's Redis is a record too, where `IsRedis` says what a command leaves behind, with an
-- error or without, `IsUp` that reads answer what the server holds, and `IsWriting` that no command
-- fails. Milvus, encoding/json, strings.ToLower, float32, float64, time.Parse and regular expressions
-- are functions of which nothing is assumed but what a theorem names. All reads of one handler see one
-- server.
--
-- Fuel. The loop of processBufferedFrames takes one more round of fuel than there are bytes, and each
-- frame takes eight bytes at least. The scan over the blanks before a number takes one more than there
-- are bytes, and drops at least one in each round. The sampling loop of the statistics ends by its
-- deadline, so its fuel is a number above that of the round in which the clock passes it. No other
-- definition has fuel.
--
-- Not modelled: closing connections and listeners when a context ends, deadlines other than by what
-- Read and Write answer, logging, and aliasing of a frame's body with the connection's buffer. In
-- gzipDecompress a reader that fails exactly at the limit is taken to fail after the limit. Scores in
-- Redis are integers, which a float64 holds below 2^53, and the reads of one call see one server. In the
-- configuration, filepath.Abs is the identity, the environment is the one behind the .env file, and
-- time.ParseDuration is a parameter. The issues of the validator are neither sorted nor printed, and the
-- carriage return that fmt.Sscanf skips before the end of a line is left out. Flags, output and the HTTP
-- servers of the programs under cmd/ and of the ACL service are left out, as are the console client and
-- the Ping endpoint.
pub mod Base
pub mod Protocol
pub mod Server
pub mod Codec
pub mod Acl
pub mod Config
pub mod Admin
pub mod Validate
pub mod Stats
