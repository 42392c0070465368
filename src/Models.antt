-- ===== src/Models.antt =====
-- The enums and the mapped tables: src/db/models/enums.py, order.py, types.py. A UUID is the
-- number that it encodes, a timestamp the number of seconds since the epoch.
pub mod Enums
pub mod Order
