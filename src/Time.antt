-- ===== src/Time.antt =====
-- util/time: the packed calendar time of the protocol (WowTime) and the game clock (CGameTime).
pub mod WowTime
pub mod GameTime
