-- ===== src/Transport.antt =====
-- The LBTP transport, core/lbtp.
pub mod Seq
pub mod Mtu
pub mod Migration
pub mod Pacer
pub mod Tcp
pub mod Ice
pub mod Turn
pub mod HolePunch
pub mod NatKeepalive
