-- ===== src/Text.antt =====
-- Python's `str` as the program uses it: a text is the list of its characters. Case is that of
-- the ASCII letters; other characters are left as they are.
mod Slices
mod Search
mod Parts
mod Fields
unfoldable pub use Slices.*
unfoldable pub use Search.*
unfoldable pub use Parts.*
unfoldable pub use Fields.*
