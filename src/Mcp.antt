-- ===== src/Mcp.antt =====
-- internal/mcp: the tools of the Pitfall Workbench.
pub mod Workbench
pub mod Listing
