-- ===== src/Wire.antt =====
-- The libraries that read and write packets, as the code uses them: nom 8's combinators over
-- complete input and the `BufMut` of the crate bytes. Their code is no part of the repository, so
-- they are parameters, with what their documentation says of them. A parser takes the input and
-- returns what is left of it beside the value, or `none` on any error: nothing reads an error's
-- position or kind. Bytes are numbers.
pub mod Read
pub mod Nom
pub mod Write
pub mod Reference
pub mod RoundTrip
pub mod Layout
pub mod Many
