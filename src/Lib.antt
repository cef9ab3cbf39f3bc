-- ===== src/Lib.antt =====
-- Verification of ohmydb-proxy, a proxy that stands between a database client and its server and
-- lets a statement pass, asks for a confirmation, or blocks it.
--
-- How the program works: for MySQL, a relay (sql_safety_proxy/adapters/mysql/relay.py) reads both
-- directions of a connection. The bytes of a direction go through `MySqlPacketFramer`, those of the
-- client through `MySqlLogicalMessageAssembler` as well (protocol.py). A command is parsed and
-- dispatched; a statement is classified (sql_classifier.py) and judged by the policy (policy.py); a
-- prepared statement's text is rebuilt with its parameters first. What the backend answers is tracked
-- in the session's state (session.py) and routed to the client (backend.py), after the authentication
-- (auth.py). For PostgreSQL, `_handle_client` (proxy.py) frames the startup and the messages of the
-- client (pg_protocol.py), parses those of the extended protocol (extended_protocol.py), keeps the
-- prepared statements and portals in `ConnectionState`, and judges a Simple Query or an Execute by the
-- same classifier and policy, the latter with its parameters in the query that estimates its rows
-- (param_decoder.py, preview_builder.py); `_pipe_backend` forwards what the backend sends.
--
-- Which file models which part, with the paths below sql_safety_proxy/:
--   Prelude            what the source uses of Python: lists and bytes, slices, `int.from_bytes`,
--                      `str.strip`, UTF-8, decimal and hexadecimal texts, exceptions as results
--                      (Errors), integers in network order (Network), dictionaries (Dict), and
--                      texts without quotes (Plain)
--   Framing            the loop of the framers of pg_protocol.py
--   Proxy              ProxyOptions, _estimate and _evaluate_and_decide of proxy.py, QueryContext of
--                      confirmation.py, and the writes of a handler
--   MySql.Constants    the constants of adapters/mysql/protocol.py
--   MySql.Packet       MySqlPacket, MySqlLogicalMessage, build_packet
--   MySql.Framer       MySqlPacketFramer; `next_packet` is one round of the loop of `push`
--   MySql.Assembler    MySqlLogicalMessageAssembler; `push_after` and `accept` are parts of `push`
--   MySql.Command      parse_command, classify_command and the parsers of the commands' payloads
--   MySql.Lenenc       the two readers of length-encoded integers
--   MySql.Response     OK and EOF packets, result-set headers
--   MySql.Handshake    parse_handshake_response
--   MySql.Params       parse_stmt_execute_parameters; Params.Types and Params.Values its helpers
--   MySql.Reconstruct  reconstruct_stmt_execute_sql; `step` is one round of its loop
--   MySql.Session      MySqlSessionState (adapters/mysql/session.py): Session.Prepare,
--                      Session.Acknowledge and Session.Respond hold its methods
--   MySql.Auth         adapters/mysql/auth.py
--   MySql.Backend      adapters/mysql/backend.py
--   MySql.Handler      adapters/mysql/handler.py
--   MySql.Dispatcher   adapters/mysql/dispatcher.py: Dispatcher.Commands and Dispatcher.Execute hold
--                      the branches of dispatch_authenticated_command
--   MySql.Relay        adapters/mysql/relay.py
--   Postgres.Protocol  the messages of pg_protocol.py; Postgres.Framer its _MessageFramer and
--                      Postgres.Startup its StartupFramer and parse_startup_params
--   Postgres.Extended  extended_protocol.py
--   Postgres.Preview   param_decoder.py and preview_builder.py
--   Postgres.State     ConnectionState of proxy.py
--   Postgres.Handler   the handlers of proxy.py, up to _handle_frontend_message
--   Postgres.Connection  _handle_client and _pipe_backend of proxy.py
--   Policy             policy.py; Policy.Classifier sql_classifier.py, Policy.FailSafe fail_safe.py
--   Tests              runs at concrete inputs and instances of the theorems
-- The children of a module that are not named here hold its lemmas and theorems.
--
-- How the code is read: a method becomes a function from the state to its result, or the exception
-- that it raises, together with the state that it leaves, also when it raises. Bytes and characters
-- are natural numbers, texts and bytes are lists of them; integers that the source keeps in a fixed
-- number of bytes are read with `from_bytes_le`, or with `from_bytes_be` and `unpack_signed` in network
-- order. An `asyncio.Event` is the Boolean that it holds, and a wait
-- for one goes on when it is true. A routing returns the bytes that it wrote to
-- the client, a handler or a relay the list of its writes to both sides. A connection of PostgreSQL
-- is a state that steps change: a chunk of the client, one of its messages, or a chunk of the backend.
-- A message is handled in one step, so what the backend sends while the handler waits for an estimate
-- or an answer comes before or after it. A step of the MySQL relay is a chunk or a single packet of
-- one of the sides. The decimal digits of a placeholder are those of Unicode 15, and the limit that
-- Python sets on the number of digits of an `int` is left out.
--
-- Fuel: the loop of `MySqlPacketFramer.push` runs on the length of the buffer and that of
-- `reconstruct_stmt_execute_sql` on the length of the text. A round of the first takes four bytes at
-- least and a round of the second one character at least, so that the fuel is never used up before
-- the loop ends; the theorems on both functions hold for every input. The loop of
-- `_MessageFramer._push` runs on the length of the buffer, of which a round takes five bytes at least,
-- and that of `parse_startup_params` on the length of the whole message, of which eight bytes are
-- its head and a round takes two at least; when its fuel runs out it returns no outcome.
--
-- Parameters: what the classifier uses of the sqlglot package is the record `Sqlglot`; the text that
-- Python gives to a float is the function `float_repr`. `ProxyOptions` holds the adapter's row counts,
-- the display form of a text and the answers of the confirmation provider as functions. The
-- session that a pipelined COM_STMT_EXECUTE finds when the preparation that it waits for has ended is
-- the function `resume`.
--
-- Not modelled: the connection and the runtime of the MySQL adapter, and the server of proxy.py, which
-- are sockets and tasks; timeouts of reads, which end a connection like the end of its bytes; printing;
-- the confirmation dialogues, the audit log, the estimators, which call database drivers, the adapters'
-- registry and the command line.
pub mod Prelude
pub mod Framing
pub mod Policy
pub mod Proxy
pub mod MySql
pub mod Postgres
pub mod Tests
