-- ===== src/Api.antt =====
-- src/api: the addresses, requests and answers of the server. The network is Qt's: a request is a
-- value, and a reply is what comes back for it.
pub mod Types
pub mod ServerConfig
pub mod Requests
pub mod Responses
pub mod Client
pub mod Sound
