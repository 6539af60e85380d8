-- ===== src/Mcp.antt =====
-- src/mcp/stdio_client.py: a client that starts an MCP server and calls its tools.
pub mod Client
pub mod Messages
pub mod Session
pub mod Stderr
pub mod Still
pub mod Life
pub mod Answers
pub mod Tame
pub mod Escapes
