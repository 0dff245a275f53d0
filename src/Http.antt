-- ===== src/Http.antt =====
-- Pure parts of the HTTP gateway (sapi/fpmng/fpm/fpm_http_*.c): byte ranges of static files, the CGI
-- names of request headers, host names, the escapes of the access log, and the routes.
pub mod Range
pub mod HeaderCgi
pub mod Host
pub mod Log
pub mod Route
pub mod Inet
pub mod ProxyProtocol
pub mod RequestId
pub mod Acl
pub mod Forwarded
pub mod Negotiate
mod Tests
