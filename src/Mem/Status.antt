-- ===== src/Mem/Status.antt =====
-- sys/mem.c: the loop over the lines of a status file.
use libccll.Base.{ℕ, ◌%◌, ◌^◌, Option, List, Bytes}
use libccll.Mem.{Key}
use libccll.Mem.Keyed.{last_given}
use libccll.Mem.Numbers.{or_value}

-- the number that the last line with the key gives, 0 if none does, as an `int`
unfoldable pub figure : (scan : Bytes → Option ℕ) → Key → List Bytes → ℕ
figure scan k texts = or_value (last_given scan k texts) 0 % 2 ^ 32
