-- ===== src/Lib.antt =====
-- php-fpm-ng: a PHP process manager with an HTTP gateway, cron pools and supervisor pools
-- (sapi/fpmng). The C code runs a master process that forks the children of each pool, a gateway
-- process that speaks HTTP to clients and FastCGI or HTTP to workers, and pool types that run a
-- script on a schedule or all the time. This library models the parts of that code whose outcome
-- is decided by the code itself, and not by the kernel, libevent, OpenSSL or libphp.
--
-- Files, each with its own comment on the code it is about:
--   * Base: C strings as lists of byte values, lists and tests on the native numbers, strtok_r
--     (Base/Tokens), decimal numbers (Base/Numeral).
--   * Cron: sapi/fpmng/fpm/fpm_cron_schedule.c. Item is fpm_cron_parse_item with
--     fpm_cron_parse_uint, Field is fpm_cron_parse_field, Schedule is fpm_cron_schedule_parse, Next
--     is fpm_cron_schedule_matches and fpm_cron_schedule_next. A parser ends in a value, in a
--     message, or in behaviour that C leaves undefined (Outcome).
--   * HttpClient: sapi/fpmng/fpm/fpm_http_client.c, the reply of an upstream HTTP server. Body is the
--     state machine fpm_http_http_body, Size its chunk-size line, Header the readers of one header.
--   * Supervisor: sapi/fpmng/fpm/fpm_pool_supervisor.c. State is the shared memory, Scan is
--     fpm_pool_supervisor_one_shot_done_count under concurrent writers, Policy is
--     fpm_pool_supervisor_apply_policy, fpm_pool_supervisor_one_shot_maybe_finish and the front of
--     fpm_pool_supervisor_child_main; its children are about a pool over time.
--   * CrashBackoff: sapi/fpmng/fpm/fpm_crash_backoff.c. Time is struct timeval, Delay the choice of a
--     wait, Entry the entry points on the state of one pool.
--   * Http: pure parts of the gateway. Range is sapi/fpmng/fpm/fpm_http_static_range.c, HeaderCgi is
--     sapi/fpmng/fpm/fpm_http_header_cgi.c, Host is sapi/fpmng/fpm/fpm_http_host.c, Log is the
--     escapes of sapi/fpmng/fpm/fpm_http_access_log.c, Route is the rank, the sort and the walk of
--     sapi/fpmng/fpm/fpm_http_route.c and sapi/fpmng/fpm/fpm_http.c. ProxyProtocol is
--     sapi/fpmng/fpm/fpm_http_proxy_protocol.c, Acl is sapi/fpmng/fpm/fpm_http_acl.c, Forwarded is
--     sapi/fpmng/fpm/fpm_http_forwarded.c, RequestId is sapi/fpmng/fpm/fpm_http_request_id.c, and
--     Negotiate is sapi/fpmng/fpm/fpm_http_static_negotiate.c. Inet stands for inet_pton and
--     inet_ntop.
--   * Drain: how the gateway stops, sapi/fpmng/fpm/fpm_http_drain.c, with the pause of a listener in
--     sapi/fpmng/fpm/fpm_http_accept_backoff.c and the handlers of sapi/fpmng/fpm/fpm_http_gw_proc.c.
--     Moves is a gateway over time.
--   * Reply: the reply of a FastCGI worker. The record parser is fpm_http_upstream_data of
--     sapi/fpmng/fpm/fpm_http.c, Head is fpm_http_start_reply of sapi/fpmng/fpm/fpm_http_fcgi.c, Status
--     is fpm_http_parse_cgi_status of sapi/fpmng/fpm/fpm_http_direct_request.c. Bytewise, Cuts and
--     Encoded are about the record stream, Block and Pieces about the header block when it grows,
--     Served about both together, Lines, Fields and Coded about what the block says.
--   * Backpressure: a response to a slow client, sapi/fpmng/fpm/fpm_http_backpressure.c.
--   * ConfDiff: sapi/fpmng/fpm/fpm_conf_diff.c, which pools a reload may leave alone. Flat puts the
--     includes in place, Bodies is about the lines of one section.
--   * Handoff: sapi/fpmng/fpm/fpm_reload_selective.c, the children that one master hands to the next
--     in an environment variable. Number is the numbers in it, Carry the variable of several pools.
--   * Fcgi: the encoder of sapi/fpmng/fpm/fpm_http_fcgi.c, records and parameters; Decode and Stream
--     have the reader of the protocol that it is measured by.
--   * The module Tests of a part has its theorems at concrete inputs, and runs of its definitions.
--
-- State is passed explicitly: a handler takes the record of its state and gives the new one, with
-- what it hands to the outside (bytes, a timer, a signal) in its result. A gateway or a response
-- over time, and several processes on one shared memory, are a step relation (Drain/Moves,
-- Backpressure/Bounded, Supervisor/Policy/Pool, CrashBackoff/Entry/Waits and Timer) or a store that changes
-- between two reads (Supervisor/Scan).
--
-- Integers: numbers are natural, and the code's types are written out where they matter: `int` and
-- the signed overflow of the cron parser, size_t in chunk sizes and lengths, the clamp to LLONG_MAX
-- in ranges, the wrap of unsigned counters. A time is not negative.
--
-- Fuel: the search for a cron time has one round for each minute of its horizon of four years and
-- one more; the body machine has two rounds for each byte and two more, since only a round on an
-- empty payload reads nothing; a JSON value has one round for each byte, and so has the record
-- parser of replies, each of whose rounds takes a byte at least; the scan of the done bytes has two
-- rounds more than copies, since every pass but the last adds a byte. The scan of a configuration
-- goes five includes deep, which is the bound of the code. The other loops go down a list.
--
-- Parameters: gmtime_r and localtime_r of the C library are arguments of the search, inet_pton and
-- inet_ntop those of what reads addresses, and getentropy that of the request ids. The files of a
-- configuration and php_glob are arguments of the comparison of configurations, and fpm_pid_is_same
-- and kill of the handoff. What the event loop and the process table answer (whether a timer could
-- be made, whether a child with a pid is there, whether the master may spawn) is an argument of the
-- handler.
--
-- Not modelled: the event loops and sockets, TLS, the WebSocket transports, the configuration
-- parser, reloads, packing, log files and operator pages. The texts of messages are left out
-- everywhere.

pub mod Base
pub mod Backpressure
pub mod ConfDiff
pub mod CrashBackoff
pub mod Cron
pub mod Drain
pub mod Fcgi
pub mod Handoff
pub mod Http
pub mod HttpClient
pub mod Reply
pub mod Supervisor
