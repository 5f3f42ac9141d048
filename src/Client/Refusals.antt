-- ===== src/Client/Refusals.antt =====
-- What becomes of a mutation (clients/library/request_manager.go) that a server of the repository
-- (internal/server/hyperconverged/hyperconverged_server.go) refuses.
use sandstore.Client.Router.{Router}
