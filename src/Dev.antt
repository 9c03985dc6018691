-- ===== src/Dev.antt =====
-- src/kernel/dev: the serial line, the text screen and the keyboard. A function is the list of its
-- port writes, in order, or the cell of the screen that it writes.
pub mod Com
pub mod Text
pub mod Kbd
