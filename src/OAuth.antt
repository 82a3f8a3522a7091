-- ===== src/OAuth.antt =====
-- src/mcp_connector/oauth: the store of the authorization server and its token endpoint.
pub mod Rows
pub mod Store
pub mod Rotation
pub mod Replay
pub mod Revocation
pub mod SingleUse
pub mod Provider
pub mod Trace
pub mod Verifier
pub mod Mapping
pub mod UserIds
