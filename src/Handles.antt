-- ===== src/Handles.antt =====
-- The Win32 handles that the calls of server/ open and close. A call returns what it did with them,
-- in order; deferred closings stand at the end of it.
use remote_mouse.Common.{ℕ, ◌==◌, List, [], ◌∷◌, if◌then◌else◌}

pub data Handle : Type 0 where
  manager service token duplicate process snapshot environment thread : Handle

pub data HandleEvent : Type 0 where
  opened closed : Handle → HandleEvent

abbrev tag : Handle → ℕ
tag manager = 0
tag service = 1
tag token = 2
tag duplicate = 3
tag process = 4
tag snapshot = 5
tag environment = 6
tag thread = 7

abbrev remove_handle : Handle → List Handle → List Handle
remove_handle h [] = []
remove_handle h (g ∷ gs) = let rest = remove_handle h gs in if tag h == tag g then gs else g ∷ rest

-- The handles that are open after the events, with those that were open before.
abbrev pub left_open : List HandleEvent → List Handle → List Handle
left_open [] open_now = open_now
left_open (opened h ∷ es) open_now = left_open es (h ∷ open_now)
left_open (closed h ∷ es) open_now = left_open es (remove_handle h open_now)
