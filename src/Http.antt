-- ===== src/Http.antt =====
-- What the program uses of net/http: headers, requests, the response writer and handlers.
-- A handler is a function that returns the calls that it makes on its response writer, so that a
-- middleware which hands on a writer of its own intercepts those calls.
mod Fields
mod Writer
mod State
pub mod Laws
pub mod Silent
unfoldable pub use Fields.*
unfoldable pub use Writer.*
pub use State.*
