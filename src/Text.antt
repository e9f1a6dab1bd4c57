-- ===== src/Text.antt =====
-- Python's `str` methods that the program uses, over code points.
mod Split
mod Laws
pub use Laws.*
unfoldable pub use Split.{
  len, take, drop, last_three, all_but_last_three, is_space, lstrip, rstrip, strip, has_space,
  rsplit_space,
}
