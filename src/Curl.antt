-- ===== src/Curl.antt =====
-- The cURL web example: curl/curl_web_example.cpp.
pub mod Headers
pub mod Received
pub mod Request
pub mod Lookup
pub mod Sent
pub mod Served
pub mod Owned
