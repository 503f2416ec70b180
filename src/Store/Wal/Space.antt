-- ===== src/Store/Wal/Space.antt =====
-- wal.rs: the accounting of space, and the allocation of segments.
pub mod Room
use beanstalkd_rust.Base.{
  ℕ, zero, suc, ◌+◌, ◌-◌, ◌*◌, ◌/◌, ◌≡◌, Bool, true, false, Option, none, some, List, [], ◌∷◌, ◌++◌,
  Bytes, codes, length, ltb, leb, max, max_u64, if◌then◌else◌, ◌==◌,
}
use beanstalkd_rust.Proto.Decimal.{decimal}
use beanstalkd_rust.Store.Format.{delete_rec_len, put_rec_len, seg_header_len, segment_header}
use beanstalkd_rust.Store.Outcome.{Outcome, ok, err}
use beanstalkd_rust.Store.Wal.{Inner, Seg, current, max_file_size, block}

too_large : ℕ → Bytes
too_large file_size =
    codes "binlog file size "
    ++ decimal file_size
    ++ codes " is too large (max "
    ++ decimal max_file_size
    ++ codes ")"

-- `file_size` in whole blocks; the product of `u64` is checked.
unfoldable pub segment_size : ℕ → Outcome ℕ
unfolding too_large
segment_size file_size =
    let size = (max file_size 1 + (block - 1)) / block * block in
    if ltb max_u64 size
    then err (too_large file_size)
    else if leb size max_file_size
    then ok size
    else err (too_large file_size)

unfoldable pub capacity : Inner → ℕ
capacity w = w.seg_size - seg_header_len

unfoldable pub future_count : Inner → ℕ
future_count w = length w.segs - 1 - w.cur

unfoldable pub reserved : Inner → ℕ
reserved w = delete_rec_len * (length w.jobs + w.pending_puts) + w.pending_bytes

unfoldable pub avail : Inner → ℕ
unfolding future_count capacity
avail w = ((current w).size - (current w).written) + future_count w * capacity w

unfoldable pub slack : Inner → ℕ
unfolding future_count
slack w = delete_rec_len * (future_count w + 1) + w.pending_bytes

unfoldable pub zeros : ℕ → Bytes
zeros zero = []
zeros (suc n) = 0 ∷ zeros n

-- The file that `preallocate` writes.
unfoldable pub preallocated : ℕ → Bytes
unfolding zeros
preallocated size = segment_header ++ zeros (size - seg_header_len)

unfoldable pub fresh : ℕ → ℕ → Seg
unfolding preallocated
fresh index size = record {
  index = index;
  size = size;
  written = seg_header_len;
  anchors = 0;
  puts = [];
  is_open = true;
  bytes = preallocated size;
}

unfoldable pub over_limit : Inner → Bool
over_limit w = elim w.limit [ none ↦ false | some limit ↦ ltb limit (w.disk_total + w.seg_size) ]

-- With a new segment at the end.
unfoldable pub grown : Inner → Inner
unfolding fresh
grown w = record w {
  next_index = w.next_index + 1;
  disk_total = w.disk_total + w.seg_size;
  segs = w.segs ++ fresh w.next_index w.seg_size ∷ [];
}

-- An error leaves the log as it was.
unfoldable pub allocate : Inner → Outcome Inner
unfolding over_limit grown
allocate w =
    if over_limit w
    then err (codes "binlog size limit reached")
    else if w.next_index == max_u64
    then err (codes "binlog segment numbers exhausted")
    else ok (grown w)

unfoldable pub needed : ℕ → Bool → Inner → ℕ
unfolding reserved slack capacity
needed n spare w = reserved w + n + slack w + (if spare then capacity w else 0)

-- The loop of `ensure_room`; it is never the fuel that ends it (`ensure_room-room`).
unfoldable pub make_room : ℕ → ℕ → Bool → Inner → Inner × Bool
unfolding needed avail allocate
make_room zero n spare w = (w, false)
make_room (suc fuel) n spare w =
    if leb (needed n spare w) (avail w)
    then (w, true)
    else elim (allocate w) [ err why ↦ (w, false) | ok w' ↦ make_room fuel n spare w' ]

unfoldable pub ensure_room : ℕ → Bool → Inner → Inner × Bool
unfolding make_room needed
ensure_room n spare w = make_room (suc (needed n spare w)) n spare w

unfoldable pub reserve_put : ℕ → ℕ → Inner → Inner × Bool
unfolding ensure_room put_rec_len
reserve_put tube_len body_len w =
    let put = put_rec_len tube_len body_len in
    if ltb (capacity w) put
    then (w, false)
    else let (w', room) =
        ensure_room delete_rec_len true (record w { pending_bytes = w.pending_bytes + put }) in
      if room
      then (record w' { pending_puts = w'.pending_puts + 1 }, true)
      else (record w' { pending_bytes = w'.pending_bytes - put }, false)
