-- ===== src/Base/Handles.antt =====
-- Sockets, event sources, timers and requests as numbers, and lists of those not closed.
use Prim.Native.Nat.{ℕ}
use mathlib.Core.Bool.{Bool, false, ◌||◌}
use mathlib.Core.List.{List, [], ◌∷◌}
use mathlib.Core.Option.{Option, none, some}
use nowhere_dash.Base.Tests.{◌==◌, if◌then◌else◌}

-- The handle of a ref.
abbrev pub held : Option ℕ → List ℕ
held none = []
held (some k) = k ∷ []

abbrev pub mem : ℕ → List ℕ → Bool
mem k [] = false
mem k (j ∷ js) = j == k || mem k js

-- A handle is closed, cleared or aborted.
unfoldable pub remove : ℕ → List ℕ → List ℕ
remove k [] = []
remove k (j ∷ js) = if j == k then remove k js else j ∷ remove k js
