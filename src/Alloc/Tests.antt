-- ===== src/Alloc/Tests.antt =====
-- Two allocations in both orders, and the text of one.
use libccll.Base.{◌≢◌, none, refl, arith, ℕ, ◌≡◌, some, [], ◌∷◌, codes}
use libccll.Alloc.{cl_free, del_obj, cl_allocing_cnt, cl_allocing_bytes, Objs, cl_malloc}
use libccll.Alloc.Stat.{Formats, all_field_bytes}
use libccll.Alloc.View.{Map, put, size_at, Reach, start, allocate, release, Reach-view}

-- two allocations, of which the first is freed
abbrev large_left : Objs
large_left = record {
  li_objs =
      record { fun = codes "g"; tag = codes "t"; line = 2; tick = 6; addr = 64; size = 100 } ∷ [];
  freed = 16 ∷ [];
}

abbrev large_map : Map
large_map = put 16 none (put 64 (some 100) (put 16 (some 8) (λ a. none)))

not_null : ◌≢◌ {A = ℕ} 16 0
not_null e = omega (arith, e)

large_left-Reach : Reach large_left large_map 1 100
unfolding cl_malloc cl_free del_obj
large_left-Reach =
    release 16 8
      (allocate 64 6 (codes "g") 2 (codes "t") 100
        (allocate 16 5 (codes "f") 1 (codes "t") 8 start refl) refl)
      not_null refl

Reach-view_example :
    ((a : ℕ) → size_at large_left.li_objs a ≡ large_map a)
    × (cl_allocing_cnt large_left ≡ 1)
    × (cl_allocing_bytes large_left ≡ 100)
Reach-view_example = Reach-view large_left large_map 1 100 large_left-Reach

abbrev formats : Formats
formats = record {
  decimal = λ n. codes "290";
  pointer = λ p. codes "0x55d0c2a012a0";
  readable = λ n. codes "288 B";
  date = λ tick. codes "2025-11-25 21:44:19";
}

-- what `_cre_thrds` allocates
abbrev crowded : Objs
crowded = record {
  li_objs =
      record {
        fun = codes "_cre_thrds";
        tag = codes "libcl_thrdpool";
        line = 175;
        tick = 5;
        addr = 16;
        size = 16;
      }
      ∷ [];
  freed = [];
}

-- 44 bytes are too many
too_long : all_field_bytes formats crowded.li_objs ≡ 44
unfolding all_field_bytes
too_long = refl
