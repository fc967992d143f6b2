-- ===== src/Common/Text.antt =====
-- Go strings as lists of code points, with the functions of `strings` and `strconv` that the program
-- calls. `ToLower` changes the ASCII capitals only: the letters of configurations are ASCII.
mod Laws
pub use Laws.*
mod Base
mod Split
unfoldable pub use Base.*
unfoldable pub use Split.*
