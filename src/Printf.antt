-- ===== src/Printf.antt =====
-- nolibc/vfprintf.c: `printf_core` and `vfprintf`, and nolibc/vsnprintf.c.
pub mod Outcome
pub mod Table
pub mod Argument
pub mod Directive
pub mod Convert
pub mod Field
pub mod Flags
pub mod Core
pub mod Reading
pub mod Converting
pub mod Literal
pub mod Count
pub mod Passes
pub mod Buffer
pub mod Snprintf
pub mod Specifiers
pub mod Rounds
pub mod Plain
pub mod Numeral
pub mod Shown
pub mod Turn
pub mod Render
pub mod Callers
pub mod Tests
