-- ===== src/Mem/Tests.antt =====
-- A status file with another line between two that are read.
use libccll.Base.{ℕ, Option, some, List, [], ◌∷◌, Bytes, codes}
use libccll.Times.{number}
use libccll.Txt.{skip_spaces}

abbrev scan : Bytes → Option ℕ
scan text = some (number 0 (skip_spaces text))

abbrev texts : List Bytes
texts = codes "VmPeak: 12 kB" ∷ (codes "Name: x" ∷ (codes "VmRSS: 7" ∷ []))
