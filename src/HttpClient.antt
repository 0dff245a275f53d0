-- ===== src/HttpClient.antt =====
-- The HTTP/1.1 client of the gateway (sapi/fpmng/fpm/fpm_http_client.c): the framing of an
-- upstream's response.
pub mod Size
pub mod Body
pub mod Header
mod Tests
