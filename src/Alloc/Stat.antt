-- ===== src/Alloc/Stat.antt =====
-- comm/alloc.c: the text of `cl_alloc_get_stat`. How `sprintf` writes a number in decimal and a pointer, and
-- what `cl_bytes_to_readable_str` and `cl_time_sec2date1` write, are arguments.
use libccll.Base.{
  ℕ, ◌+◌, ◌*◌, ◌≤◌, ◌≡◌, ◌↔◌, refl, List, [], ◌∷◌, ◌++◌, Bytes, codes, length, length-append, arith,
}
use libccll.Alloc.{Obj, Objs, sum_bytes}

pub record Formats : Type 0 where
  pub decimal : ℕ → Bytes
  pub pointer : ℕ → Bytes
  pub readable : ℕ → Bytes
  pub date : ℕ → Bytes

abbrev pub join : List Bytes → Bytes
join [] = []
join (part ∷ parts) = part ++ join parts

-- the line of an object
abbrev pub line_parts : Formats → Obj → List Bytes
line_parts f obj =
    codes "  ["
    ∷ f.date obj.tick
    ∷ codes "] TAG: "
    ∷ obj.tag
    ∷ codes ", FUN: "
    ∷ obj.fun
    ∷ codes "+"
    ∷ f.decimal obj.line
    ∷ codes ", ADDR: "
    ∷ f.pointer obj.addr
    ∷ codes ", BYTES: "
    ∷ f.decimal obj.size
    ∷ codes "\n"
    ∷ []

unfoldable pub stat_line : Formats → Obj → Bytes
stat_line f obj = join (line_parts f obj)

unfoldable pub stat_lines : Formats → List Obj → Bytes
stat_lines f [] = []
stat_lines f (obj ∷ objs) = stat_line f obj ++ stat_lines f objs

-- `cl_alloc_get_stat` of a buffer that is not null: the text that it writes
unfoldable pub stat_parts : Formats → Objs → List Bytes
stat_parts f s =
    codes "Allocating cnt:   "
    ∷ f.decimal (length s.li_objs)
    ∷ codes "\n"
    ∷ codes "Allocating bytes: "
    ∷ f.readable (sum_bytes 0 s.li_objs)
    ∷ codes "\n"
    ∷ stat_lines f s.li_objs
    ∷ []

unfoldable pub cl_alloc_get_stat : Formats → Objs → Bytes
cl_alloc_get_stat f s = join (stat_parts f s)

-- the bytes of the fields of an object, and of all objects, less the dates
abbrev pub field_bytes : Formats → Obj → ℕ
field_bytes f obj =
    length obj.tag
    + length obj.fun
    + length (f.decimal obj.line)
    + length (f.pointer obj.addr)
    + length (f.decimal obj.size)

unfoldable pub all_field_bytes : Formats → List Obj → ℕ
all_field_bytes f [] = 0
all_field_bytes f (obj ∷ objs) = field_bytes f obj + all_field_bytes f objs

-- the bytes of the two lines in front
unfoldable pub head_bytes : Formats → Objs → ℕ
head_bytes f s =
    38 + length (f.decimal (length s.li_objs)) + length (f.readable (sum_bytes 0 s.li_objs))

sum_lengths : List Bytes → ℕ
sum_lengths [] = 0
sum_lengths (part ∷ parts) = length part + sum_lengths parts

length-join : (parts : List Bytes) → length (join parts) ≡ sum_lengths parts
unfolding sum_lengths
length-join [] = refl
length-join (part ∷ parts) = omega (arith, length-append part (join parts), length-join parts)

length-stat_lines :
    (f : Formats) (objs : List Obj)
    → ((tick : ℕ) → length (f.date tick) ≡ 19)
    → length (stat_lines f objs) ≡ 55 * length objs + all_field_bytes f objs
unfolding stat_line stat_lines all_field_bytes sum_lengths
length-stat_lines f [] dated = omega arith
length-stat_lines f (obj ∷ objs) dated = omega (
  arith,
  length-append (stat_line f obj) (stat_lines f objs),
  length-join (line_parts f obj),
  dated obj.tick,
  length-stat_lines f objs dated,
)

-- On dates of 19 bytes, the text of `cl_alloc_get_stat` has 96 bytes for each allocation and those of its
-- first two lines at most, which is the size that comm/inc/alloc.h names, exactly if the tags, functions,
-- lines, addresses and sizes have no more than 41 bytes for each allocation together.
cl_alloc_get_stat_bounds :
    (f : Formats) (s : Objs)
    → ((tick : ℕ) → length (f.date tick) ≡ 19)
    → (length (cl_alloc_get_stat f s) ≤ head_bytes f s + 96 * length s.li_objs)
      ↔ (all_field_bytes f s.li_objs ≤ 41 * length s.li_objs)
unfolding cl_alloc_get_stat stat_parts head_bytes sum_lengths
cl_alloc_get_stat_bounds f s dated =
    let lines = length-stat_lines f s.li_objs dated in
    let text = length-join (stat_parts f s) in
    ((λ fits. omega (arith, fits, lines, text)), (λ few. omega (arith, few, lines, text)))
