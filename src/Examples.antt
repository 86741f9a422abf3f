-- ===== src/Examples.antt =====
-- project_3/myClient.c and myServer.c: the two programs that `make tcpAll` builds, over TCP.
pub mod MyClient
pub mod MyServer
mod Tests
