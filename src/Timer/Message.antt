-- ===== src/Timer/Message.antt =====
-- sys/timer.c: the requests that the clients write to the socket, and how the server reads them.
use libccll.Base.{
  ℕ, zero, suc, ◌+◌, ◌*◌, ◌/◌, ◌%◌, not, [], ◌∷◌, ◌++◌, ◌==◌, if◌then◌else◌, Bytes, length, get_or,
}

-- the little-endian bytes of a number, and the number of bytes
unfoldable pub to_bytes : ℕ → ℕ → Bytes
to_bytes zero v = []
to_bytes (suc n) v = v % 256 ∷ to_bytes n (v / 256)

unfoldable pub from_bytes : ℕ → ℕ → Bytes → ℕ
from_bytes zero idx buf = 0
from_bytes (suc n) idx buf = get_or buf idx 0 + 256 * from_bytes n (idx + 1) buf

-- `_load_srv_buf`: the twenty bytes of a request
unfoldable pub load_srv_buf : (type sec ms rpe cb : ℕ) → Bytes
unfolding to_bytes
load_srv_buf type sec ms rpe cb =
    1
    ∷ (to_bytes 2 (1 + 2 + 2 + 4 + 8)
        ++ (type ∷ (to_bytes 2 sec ++ (to_bytes 2 ms ++ (to_bytes 4 rpe ++ to_bytes 8 cb)))))

-- what `_srv_timer_proc` makes of a request; `refused` is a message that it only logs, and
-- `short_read` is where it exits
pub data Request : Type 0 where
  new_timer : (sec ms rpe cb : ℕ) → Request
  cancel : (cb : ℕ) → Request
  destroy : Request
  refused : Request
  short_read : Request

unfoldable pub read_request : Bytes → Request
unfolding from_bytes
read_request buf =
    let type = get_or buf 3 0 in
    if not (length buf == 20)
    then short_read
    else if not (get_or buf 0 0 == 1)
    then refused
    else if not (from_bytes 2 1 buf == 17)
    then refused
    else if type == 1
    then new_timer (from_bytes 2 4 buf) (from_bytes 2 6 buf) (from_bytes 4 8 buf)
        (from_bytes 8 12 buf)
    else if type == 2
    then cancel (from_bytes 8 12 buf)
    else if type == 3
    then destroy
    else refused

-- `cl_timer_set`, `cl_timer_cancel` and `_timer_destroy`: what they write to the socket
unfoldable pub cl_timer_set : (sec ms repeats cb : ℕ) → Bytes
cl_timer_set sec ms repeats cb = load_srv_buf 1 sec ms repeats cb

unfoldable pub cl_timer_cancel : (cb : ℕ) → Bytes
cl_timer_cancel cb = load_srv_buf 2 0 0 0 cb

unfoldable pub timer_destroy : Bytes
timer_destroy = load_srv_buf 3 0 0 0 0
