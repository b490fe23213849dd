-- ===== src/Binder.antt =====
-- src/include/binder and src/include/common: bound expressions and constant values.
pub mod Numbers
pub mod Expression
