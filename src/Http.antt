-- ===== src/Http.antt =====
-- What the four transport.go files share: requests and replies of net/http, the patterns of
-- gorilla/mux, and go-kit's server. These libraries are parameters of the model.
pub mod Reply
pub mod Server
