-- ===== src/Go.antt =====
-- What the program uses of Go's standard library beyond texts and numbers.
pub mod Html
pub mod Strconv
pub mod Sort
pub mod Path
pub mod Time
