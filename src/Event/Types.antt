-- ===== src/Event/Types.antt =====
-- src/event/Types.hpp, as far as the input layer uses it.
use whoa.Base.{List}
use whoa.Base.Int.{ℤ}

pub data OsInput : Type 0 where
  capture_changed char string ime size close focus key_down key_up mouse_down mouse_move : OsInput
  mouse_wheel mouse_move_relative mouse_up os_14 os_15 os_16 os_17 os_18 shutdown : OsInput

-- `param` has four entries.
pub record OsEvent : Type 0 where
  pub id : OsInput
  pub param : List ℤ
