-- ===== src/Lifecycle/Client/Cleared.antt =====
-- What closeContext (keepalive.go) leaves: no group, and nothing that the server's answers gave the
-- client and that was not given back.
use gopcda.Lifecycle.Client.{Client}
