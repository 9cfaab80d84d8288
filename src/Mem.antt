-- ===== src/Mem.antt =====
-- sys/mem.c: the figures of a process in /proc. What `fopen` gives, and what `sscanf` reads as a `long`,
-- are arguments; `none` is a failure. A `long` that is stored as an `int` keeps its 32 low bits.
pub mod Lines
pub mod Numbers
pub mod Keyed
pub mod Status
mod Tests
use libccll.Base.{
  ℕ, zero, suc, ◌+◌, ◌%◌, ◌^◌, Bool, true, false, ◌&&◌, Option, none, some, [], ◌∷◌, ◌++◌, ◌==◌,
  if◌then◌else◌, Bytes, codes, length, drop,
}
use libccll.Ini.{fgets}

-- the lines that are read
pub data Key : Type 0 where
  vm_peak_line vm_size_line vm_rss_line vm_data_line vm_stk_line vm_exe_line vm_lib_line : Key

-- `strncmp(buffer, key, strlen(key)) == 0`
unfoldable pub has_prefix : (key buffer : Bytes) → Bool
has_prefix [] buffer = true
has_prefix (k ∷ key) [] = false
has_prefix (k ∷ key) (c ∷ buffer) = k == c && has_prefix key buffer

-- the tests of a line: which it is, and what is behind the key
unfoldable pub key_of : Bytes → Option (Key × Bytes)
key_of buffer =
    if has_prefix (codes "VmPeak:") buffer
    then some (vm_peak_line, drop 7 buffer)
    else if has_prefix (codes "VmSize:") buffer
    then some (vm_size_line, drop 7 buffer)
    else if has_prefix (codes "VmRSS:") buffer
    then some (vm_rss_line, drop 6 buffer)
    else if has_prefix (codes "VmData:") buffer
    then some (vm_data_line, drop 7 buffer)
    else if has_prefix (codes "VmStk:") buffer
    then some (vm_stk_line, drop 6 buffer)
    else if has_prefix (codes "VmExe:") buffer
    then some (vm_exe_line, drop 6 buffer)
    else if has_prefix (codes "VmLib:") buffer
    then some (vm_lib_line, drop 6 buffer)
    else none

-- `MemInfo`
pub record MemInfo : Type 0 where
  pub vmpeak : ℕ
  pub vmsize : ℕ
  pub vmrss : ℕ
  pub vmdata : ℕ
  pub vmstk : ℕ
  pub vmexe : ℕ
  pub vmlib : ℕ

-- `sizeof(MemInfo) / sizeof(int)`, where a `long` has eight bytes
abbrev pub item_cnt : ℕ
item_cnt = 14

-- `sscanf` into the field of a line; a text without a number leaves the field
unfoldable pub set_field : Key → Option ℕ → MemInfo → MemInfo
set_field k none mi = mi
set_field vm_peak_line (some n) mi = record mi { vmpeak = n }
set_field vm_size_line (some n) mi = record mi { vmsize = n }
set_field vm_rss_line (some n) mi = record mi { vmrss = n }
set_field vm_data_line (some n) mi = record mi { vmdata = n }
set_field vm_stk_line (some n) mi = record mi { vmstk = n }
set_field vm_exe_line (some n) mi = record mi { vmexe = n }
set_field vm_lib_line (some n) mi = record mi { vmlib = n }

-- the loop over the file, on fuel
unfoldable pub status_loop :
    (scan : Bytes → Option ℕ) → ℕ → (file : Bytes) → (found_cnt : ℕ) → MemInfo → MemInfo
status_loop scan zero file found_cnt mi = mi
status_loop scan (suc fuel) [] found_cnt mi = mi
status_loop scan (suc fuel) (c ∷ file) found_cnt mi =
    let (buffer, rest) = fgets 255 (c ∷ file) in
    if found_cnt == item_cnt then mi else elim (key_of buffer) [
      | none ↦ status_loop scan fuel rest found_cnt mi
      | some (k, text) ↦ status_loop scan fuel rest (found_cnt + 1) (set_field k (scan text) mi)
    ]

-- the five figures that are delivered
pub record RunningMems : Type 0 where
  pub vm_rss : ℕ
  pub vm_size : ℕ
  pub vm_peak : ℕ
  pub vm_data : ℕ
  pub vm_stk : ℕ

abbrev pub no_info : MemInfo
no_info = record { vmpeak = 0; vmsize = 0; vmrss = 0; vmdata = 0; vmstk = 0; vmexe = 0; vmlib = 0 }

unfoldable pub delivered : MemInfo → RunningMems
delivered mi = record {
  vm_rss = mi.vmrss % 2 ^ 32;
  vm_size = mi.vmsize % 2 ^ 32;
  vm_peak = mi.vmpeak % 2 ^ 32;
  vm_data = mi.vmdata % 2 ^ 32;
  vm_stk = mi.vmstk % 2 ^ 32;
}

-- `_get_running_mems`
unfoldable pub get_running_mems :
    (fopen : Bytes → Option Bytes)
    → (scan : Bytes → Option ℕ) → (process : Bytes) → Option RunningMems
get_running_mems fopen scan process = elim (fopen (codes "/proc/" ++ process ++ codes "/status")) [
  | none ↦ none
  | some file ↦ some (delivered (status_loop scan (suc (length file)) file 0 no_info))
]

-- `cl_mem_get_curr_running_mems`
unfoldable pub cl_mem_get_curr_running_mems :
    (fopen : Bytes → Option Bytes) → (scan : Bytes → Option ℕ) → Option RunningMems
cl_mem_get_curr_running_mems fopen scan = get_running_mems fopen scan (codes "self")

-- `cl_mem_get_running_mems`; `print` is `%d`
unfoldable pub cl_mem_get_running_mems :
    (fopen : Bytes → Option Bytes)
    → (scan : Bytes → Option ℕ) → (print : ℕ → Bytes) → (pid : ℕ) → Option RunningMems
cl_mem_get_running_mems fopen scan print pid = get_running_mems fopen scan (print pid)
