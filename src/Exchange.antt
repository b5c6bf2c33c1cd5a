-- ===== src/Exchange.antt =====
-- dhcp-client.c or simple-dhcp-client.c, and dhcp-server.c, together: what one program sends, the other
-- receives.
pub mod Asked
pub mod Arrived
pub mod Served
pub mod Acquiring
pub mod Replied
pub mod Acquired
pub mod Apart
pub mod Leased
pub mod Renewed
pub mod Simple
pub mod Offered
