-- ===== src/Store/Wal/Space/Room.antt =====
-- wal.rs, `ensure_room` and `reserve_put`: what is reserved has room.
use beanstalkd_rust.Base.{
  ℕ, zero, suc, ◌+◌, ◌<◌, ◌≤◌, ◌≡◌, ◌⊎◌, refl, ◌∙◌, arith, Bool, true, false, List, [], ◌∷◌, ◌++◌,
  Bytes, codes, length, length-append, leb, ◌==◌, Bool-cases, inl, inr, max_u64,
}
use beanstalkd_rust.Store.Format.{delete_rec_len}
use beanstalkd_rust.Store.Outcome.{ok, err}
use beanstalkd_rust.Store.Wal.{Inner, Seg, seg_at}
use beanstalkd_rust.Store.Wal.Space.{
  capacity, future_count, reserved, avail, slack, fresh, over_limit, allocate, grown, needed,
  make_room, ensure_room,
}

-- The current segment is one of those held, and a segment has room for more than a deletion.
pub record HasSpace (w : Inner) : Type 0 where
  pub held : w.cur < length w.segs
  pub wide : delete_rec_len < capacity w

seg_at-append :
    (i : ℕ) (segs more : List Seg) → i < length segs → seg_at i (segs ++ more) ≡ seg_at i segs
unfolding seg_at
seg_at-append i [] more h = absurd (omega arith)
seg_at-append zero (s ∷ segs) more h = refl
seg_at-append (suc i) (s ∷ segs) more h = seg_at-append i segs more (omega arith)

-- What a new segment adds.
record Grown (n : ℕ) (spare : Bool) (w w' : Inner) : Type 0 where
  space : HasSpace w'
  more : avail w' ≡ avail w + capacity w
  need : needed n spare w' ≡ needed n spare w + delete_rec_len
  same_capacity : capacity w' ≡ capacity w
  same_reserved : reserved w' ≡ reserved w
  same_pending : w'.pending_bytes ≡ w.pending_bytes

grown-Grown : (n : ℕ) (spare : Bool) (w : Inner) → HasSpace w → Grown n spare w (grown w)
unfolding grown avail future_count capacity needed reserved slack
grown-Grown n spare w v =
    let size = length-append w.segs (fresh w.next_index w.seg_size ∷ []) in
    let here = seg_at-append w.cur w.segs (fresh w.next_index w.seg_size ∷ []) v.held in
    let held = v.held in
    let count : future_count (grown w) ≡ suc (future_count w) = omega arith in
    record {
      space = record { held = omega arith; wide = v.wide };
      more = rw (avail, here, count) (grind arith);
      need = omega arith;
      same_capacity = refl;
      same_reserved = refl;
      same_pending = refl;
    }

-- Why `allocate` fails: the limit is reached, or there is no further segment number.
abbrev pub Refused : Inner → Type 0
Refused w = (over_limit w ≡ true) ⊎ ((w.next_index == max_u64) ≡ true)

allocate-cases :
    (n : ℕ) (spare : Bool) (w : Inner)
    → HasSpace w
    → ((why : Bytes) × (allocate w ≡ err why) × Refused w)
      ⊎ ((w' : Inner) × (allocate w ≡ ok w') × Grown n spare w w')
unfolding allocate
allocate-cases n spare w v = elim (Bool-cases (over_limit w)) [
  | inl full ↦ inl (codes "binlog size limit reached", rw (allocate, full), inl full)
  | inr room ↦ elim (Bool-cases (w.next_index == max_u64)) [
    | inl out ↦ inl (codes "binlog segment numbers exhausted", rw (allocate, room, out), inr out)
    | inr more ↦ inr (grown w, rw (allocate, room, more), grown-Grown n spare w v)
  ]
]

-- What `ensure_room` answers: there is room, or no segment can be allocated.
pub record Ensured (n : ℕ) (spare : Bool) (w w' : Inner) (room : Bool) : Type 0 where
  pub answer : ((room ≡ true) × (needed n spare w' ≤ avail w')) ⊎ ((room ≡ false) × Refused w')
  pub space : HasSpace w'
  pub same_capacity : capacity w' ≡ capacity w
  pub same_reserved : reserved w' ≡ reserved w
  pub same_pending : w'.pending_bytes ≡ w.pending_bytes

make_room-Ensured :
    (fuel n : ℕ) (spare : Bool) (w : Inner)
    → HasSpace w
    → 0 < fuel
    → needed n spare w < fuel + avail w
    → Ensured n spare w (make_room fuel n spare w).0 (make_room fuel n spare w).1
unfolding make_room
make_room-Ensured zero n spare w v pos h = absurd (omega arith)
make_room-Ensured (suc fuel) n spare w v pos h =
    elim (Bool-cases (leb (needed n spare w) (avail w))) [
      | inl enough ↦
          rw (make_room, enough)
            (record {
              answer = inl (refl, ground arith);
              space = v;
              same_capacity = refl;
              same_reserved = refl;
              same_pending = refl;
            })
      | inr few ↦ elim (allocate-cases n spare w v) [
        | inl (why, e, refused) ↦
            rw (make_room, few, e)
              (record {
                answer = inr (refl, refused);
                space = v;
                same_capacity = refl;
                same_reserved = refl;
                same_pending = refl;
              })
        | inr (w', e, g) ↦
            let wide = v.wide in
            let rest =
              make_room-Ensured fuel n spare w' g.space (ground arith)
                (ground (arith, g.more, g.need)) in
            rw (make_room, few, e)
              (record {
                answer = rest.answer;
                space = rest.space;
                same_capacity = rest.same_capacity ∙ g.same_capacity;
                same_reserved = rest.same_reserved ∙ g.same_reserved;
                same_pending = rest.same_pending ∙ g.same_pending;
              })
      ]
    ]

pub ensure_room-Ensured :
    (n : ℕ) (spare : Bool) (w : Inner)
    → HasSpace w
    → Ensured n spare w (ensure_room n spare w).0 (ensure_room n spare w).1
unfolding ensure_room
ensure_room-Ensured n spare w v =
    make_room-Ensured (suc (needed n spare w)) n spare w v (omega arith) (omega arith)
