-- ===== src/Scanner.antt =====
-- The Nmap worker (scanner/nmap/src/portscanner_scanner).
pub mod Coverage
pub mod Worker
mod Tests
