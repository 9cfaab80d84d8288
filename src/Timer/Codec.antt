-- ===== src/Timer/Codec.antt =====
-- sys/timer.c: a request on its way from the client to the server.
use libccll.Base.{ℕ, ◌+◌, ◌*◌, ◌/◌, ◌%◌, ◌^◌, ◌<◌, ◌≡◌, refl, ap, arith}
use libccll.Timer.{
  load_srv_buf, new_timer, cancel, destroy, read_request, cl_timer_set, cl_timer_cancel,
  timer_destroy,
}

two_bytes : (v : ℕ) → v < 2 ^ 16 → v % 256 + 256 * (v / 256 % 256 + 0) ≡ v
two_bytes v h = omega arith

four_bytes :
    (v : ℕ)
    → v < 2 ^ 32
    → v % 256
        + 256
          * (v / 256 % 256 + 256 * (v / 256 / 256 % 256 + 256 * (v / 256 / 256 / 256 % 256 + 0)))
      ≡ v
four_bytes v h = omega arith

eight_bytes :
    (v : ℕ)
    → v < 2 ^ 64
    → v % 256
        + 256
          * (v / 256 % 256
              + 256
                * (v / 256 / 256 % 256
                    + 256
                      * (v / 256 / 256 / 256 % 256
                          + 256
                            * (v / 256 / 256 / 256 / 256 % 256
                                + 256
                                  * (v / 256 / 256 / 256 / 256 / 256 % 256
                                      + 256
                                        * (v / 256 / 256 / 256 / 256 / 256 / 256 % 256
                                            + 256
                                              * (v / 256 / 256 / 256 / 256 / 256 / 256 / 256 % 256
                                                  + 0)))))))
      ≡ v
eight_bytes v h = omega arith

new_timer_congr :
    {a b c d a1 b1 c1 d1 : ℕ}
    → a ≡ a1
    → b ≡ b1
    → c ≡ c1
    → d ≡ d1
    → new_timer a b c d ≡ new_timer a1 b1 c1 d1
new_timer_congr p q r s = cc

-- A request of `cl_timer_set` is read back with its four values, one of `cl_timer_cancel` with its
-- callback, and `_timer_destroy` asks for the end; for values that fit their fields.
pub read_request-load_srv_buf :
    (sec ms repeats cb : ℕ)
    → sec < 2 ^ 16
    → ms < 2 ^ 16
    → repeats < 2 ^ 32
    → cb < 2 ^ 64
    → (read_request (cl_timer_set sec ms repeats cb) ≡ new_timer sec ms repeats cb)
      × (read_request (cl_timer_cancel cb) ≡ cancel cb)
      × (read_request timer_destroy ≡ destroy)
unfolding read_request load_srv_buf cl_timer_set cl_timer_cancel timer_destroy
read_request-load_srv_buf sec ms repeats cb hs hm hr hc =
    let s = two_bytes sec hs in
    let m = two_bytes ms hm in
    let r = four_bytes repeats hr in
    let c = eight_bytes cb hc in (new_timer_congr s m r c, ap cancel c, refl)
