-- ===== src/Store/Wal/Append/Core.antt =====
-- wal.rs: what `append` does to the current segment and the buffer.
use beanstalkd_rust.Base.{
  ℕ, zero, suc, ◌+◌, ◌-◌, ◌<◌, ◌≡◌, refl, ap, arith, Bool, List, [], ◌∷◌, ◌++◌, Bytes, length,
  Option-cases, inl, inr,
}
use beanstalkd_rust.Engine.Model.{JobRecord}
use beanstalkd_rust.Proto.Types.{JobId}
use beanstalkd_rust.Std.Map
use beanstalkd_rust.Std.Order.{nat_ord}
use beanstalkd_rust.Store.Wal.{Inner, Seg, current, seg_at, modify_at, modify_current}
use beanstalkd_rust.Store.Wal.Append.{
  seg_pos, unanchor, anchor, index_put, index_update, index_delete,
}

-- What the file of a segment is like.
abbrev pub FileOf : Type 0
FileOf = Bool × Bytes × ℕ × ℕ

abbrev pub file_of : Seg → FileOf
file_of s = (s.is_open, s.bytes, s.written, s.size)

-- The file of the current segment, the buffer, where it goes, and the number of segments.
pub record Core : Type 0 where
  pub file : FileOf
  pub buf : Bytes
  pub buf_start : ℕ
  pub cur : ℕ
  pub count : ℕ
  pub index : ℕ

abbrev pub core : Inner → Core
core w = record {
  file = file_of (current w);
  buf = w.buf;
  buf_start = w.buf_start;
  cur = w.cur;
  count = length w.segs;
  index = (current w).index;
}

-- What changes only the anchors of a segment is not seen.
modify_at-file_of :
    (i j : ℕ) (f : Seg → Seg) (segs : List Seg)
    → ((s : Seg) → file_of (f s) ≡ file_of s)
    → file_of (seg_at i (modify_at j f segs)) ≡ file_of (seg_at i segs)
unfolding seg_at modify_at
modify_at-file_of i j f [] h = refl
modify_at-file_of zero zero f (s ∷ segs) h = h s
modify_at-file_of zero (suc j) f (s ∷ segs) h = refl
modify_at-file_of (suc i) zero f (s ∷ segs) h = refl
modify_at-file_of (suc i) (suc j) f (s ∷ segs) h = modify_at-file_of i j f segs h

modify_at-index :
    (i j : ℕ) (f : Seg → Seg) (segs : List Seg)
    → ((s : Seg) → (f s).index ≡ s.index)
    → (seg_at i (modify_at j f segs)).index ≡ (seg_at i segs).index
unfolding seg_at modify_at
modify_at-index i j f [] h = refl
modify_at-index zero zero f (s ∷ segs) h = h s
modify_at-index zero (suc j) f (s ∷ segs) h = refl
modify_at-index (suc i) zero f (s ∷ segs) h = refl
modify_at-index (suc i) (suc j) f (s ∷ segs) h = modify_at-index i j f segs h

length-modify_at :
    (j : ℕ) (f : Seg → Seg) (segs : List Seg) → length (modify_at j f segs) ≡ length segs
unfolding modify_at
length-modify_at j f [] = refl
length-modify_at zero f (s ∷ segs) = refl
length-modify_at (suc j) f (s ∷ segs) = ap suc (length-modify_at j f segs)

pub seg_at-modify_at :
    (i : ℕ) (f : Seg → Seg) (segs : List Seg)
    → i < length segs
    → seg_at i (modify_at i f segs) ≡ f (seg_at i segs)
unfolding seg_at modify_at
seg_at-modify_at i f [] h = absurd (omega arith)
seg_at-modify_at zero f (s ∷ segs) h = refl
seg_at-modify_at (suc i) f (s ∷ segs) h = seg_at-modify_at i f segs (omega arith)

core-modify_at :
    (j : ℕ) (f : Seg → Seg) (w : Inner)
    → ((s : Seg) → file_of (f s) ≡ file_of s)
    → ((s : Seg) → (f s).index ≡ s.index)
    → core (record w { segs = modify_at j f w.segs }) ≡ core w
core-modify_at j f w h k = rw (
  modify_at-file_of w.cur j f w.segs h,
  modify_at-index w.cur j f w.segs k,
  length-modify_at j f w.segs,
)

core-unanchor : (seg : ℕ) (w : Inner) → core (unanchor seg w) ≡ core w
unfolding unanchor
core-unanchor seg w = elim (Option-cases (seg_pos seg w.segs)) [
  | inl n ↦ rw (unanchor, n)
  | inr (p, e) ↦
      rw (unanchor, e)
        (core-modify_at p (λ s. record s { anchors = s.anchors - 1 }) w (λ s. refl) (λ s. refl))
]

pub core-anchor : (id : JobId) (off : ℕ) (w : Inner) → core (anchor id off w).0 ≡ core w
unfolding anchor modify_current
core-anchor id off w =
    core-modify_at w.cur
      (λ c. record c { anchors = c.anchors + 1; puts = c.puts ++ (id, off) ∷ [] }) w (λ s. refl)
      (λ s. refl)

pub core-index_put :
    (r : JobRecord) (seg off len : ℕ) (w : Inner) → core (index_put r seg off len w) ≡ core w
unfolding index_put
core-index_put r seg off len w = elim (Option-cases (Map.get r.id w.jobs)) [
  | inl n ↦ rw (index_put, n)
  | inr (old, e) ↦ rw (index_put, e) (core-unanchor old.seg _)
]

pub core-index_update : (r : JobRecord) (w : Inner) → core (index_update r w) ≡ core w
unfolding index_update
core-index_update r w = elim (Option-cases (Map.get r.id w.jobs)) [
  | inl n ↦ rw (index_update, n)
  | inr (j, e) ↦ rw (index_update, e)
]

pub core-index_delete : (id : JobId) (w : Inner) → core (index_delete id w) ≡ core w
unfolding index_delete
core-index_delete id w = elim (Option-cases (Map.get id w.jobs)) [
  | inl n ↦ rw (index_delete, n)
  | inr (j, e) ↦ rw (index_delete, e) (core-unanchor j.seg _)
]

pub core-modify_current :
    (f : Seg → Seg) (w : Inner)
    → w.cur < length w.segs
    → core (modify_current f w)
      ≡ record (core w) { file = file_of (f (current w)); index = (f (current w)).index }
unfolding modify_current
core-modify_current f w held =
    rw (seg_at-modify_at w.cur f w.segs held, length-modify_at w.cur f w.segs)
