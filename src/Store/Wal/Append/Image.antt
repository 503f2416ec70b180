-- ===== src/Store/Wal/Append/Image.antt =====
-- wal.rs, `flush`: what the file of the current segment and the buffer hold together.
use beanstalkd_rust.Base.{
  ℕ, ◌+◌, ◌-◌, ◌<◌, ◌≤◌, ◌≡◌, refl, sym, ap, ◌∙◌, arith, true, [], ◌∷◌, ◌++◌, Bytes, length,
  length-append, length-take, take, drop, take-length, drop-length, drop-drop, take-append-drop,
  append_assoc, append-nil, Bool-cases, inl, inr, is_empty, subst,
}
use beanstalkd_rust.Store.Outcome.{ok}
use beanstalkd_rust.Store.Scan.Blank.{drop-zeros}
use beanstalkd_rust.Store.Wal.{Inner, Seg, modify_current}
use beanstalkd_rust.Store.Wal.Append.Core.{Core, core, core-modify_current}
use beanstalkd_rust.Store.Wal.Append.Entries.{longer}
use beanstalkd_rust.Store.Wal.Files.{flush, write_at}
use beanstalkd_rust.Store.Wal.Space.{zeros}

-- The open file, up to where the buffer goes, and then the buffer hold `log`; the records end
-- there, and the file is blank behind.
pub record Holds (c : Core) (log : Bytes) : Type 0 where
  pub opened : c.file.0 ≡ true
  pub held : c.cur < c.count
  pub image : take c.buf_start c.file.1 ++ c.buf ≡ log
  pub inside : c.buf_start ≤ length c.file.1
  pub end : c.file.2 ≡ length log
  pub blank : (n : ℕ) × (drop (length log) c.file.1 ≡ zeros n)

pub Holds-longer :
    (c : Core) (log bytes : Bytes)
    → Holds c log
    → Holds (longer (length bytes) bytes c) (log ++ bytes)
Holds-longer c log bytes h =
    let (n, blank) = h.blank in
    let size = length-append log bytes in
    record {
      opened = h.opened;
      held = h.held;
      image =
          sym (append_assoc (take c.buf_start c.file.1) c.buf bytes) ∙ ap (λ l. l ++ bytes) h.image;
      inside = h.inside;
      end = ap (λ n. n + length bytes) h.end ∙ sym size;
      blank = (
        n - length bytes,
        ap (λ k. drop k c.file.1) size
            ∙ sym (drop-drop (length bytes) (length log) c.file.1)
            ∙ ap (drop (length bytes)) blank
            ∙ drop-zeros (length bytes) n,
      );
    }

-- A write within a file.
module _ (file new : Bytes) (off : ℕ) (inside : off ≤ length file) where
  write_at-parts : write_at file new off ≡ (take off file ++ new) ++ drop (off + length new) file
  unfolding write_at zeros
  write_at-parts = let e : off - length file ≡ 0 = omega arith in rw (write_at, e, append-nil)

  prefix-length : length (take off file ++ new) ≡ off + length new
  prefix-length = omega (arith, length-append (take off file) new, length-take off file)

  take-write_at : take (off + length new) (write_at file new off) ≡ take off file ++ new
  take-write_at = rw write_at-parts (
      ap (λ k. take k ((take off file ++ new) ++ drop (off + length new) file)) (sym prefix-length)
      ∙ take-length (take off file ++ new) (drop (off + length new) file))

  drop-write_at : drop (off + length new) (write_at file new off) ≡ drop (off + length new) file
  drop-write_at = rw write_at-parts (
      ap (λ k. drop k ((take off file ++ new) ++ drop (off + length new) file)) (sym prefix-length)
      ∙ drop-length (take off file ++ new) (drop (off + length new) file))

  length-write_at : off + length new ≤ length (write_at file new off)
  length-write_at =
      let whole = ap length write_at-parts in
      omega
        (arith, prefix-length, length-append (take off file ++ new) (drop (off + length new) file))

is_empty-nil : (bytes : Bytes) → is_empty bytes ≡ true → bytes ≡ []
is_empty-nil [] h = refl
is_empty-nil (b ∷ bytes) h = ground arith

flushed-Holds :
    (c : Core) (log : Bytes)
    → Holds c log
    → Holds
        (record c {
          file = (c.file.0, write_at c.file.1 c.buf c.buf_start, c.file.2, c.file.3);
          buf = [];
          buf_start = c.buf_start + length c.buf;
        })
        log
flushed-Holds c log h =
    let file = c.file.1 in
    let (n, blank) = h.blank in
    let whole = ap length h.image in
    let size : c.buf_start + length c.buf ≡ length log =
      sym (prefix-length file c.buf c.buf_start h.inside) ∙ whole in
    record {
      opened = h.opened;
      held = h.held;
      image = append-nil _ ∙ take-write_at file c.buf c.buf_start h.inside ∙ h.image;
      inside = length-write_at file c.buf c.buf_start h.inside;
      end = h.end;
      blank = (
        n,
        ap (λ k. drop k (write_at file c.buf c.buf_start)) (sym size)
            ∙ drop-write_at file c.buf c.buf_start h.inside
            ∙ ap (λ k. drop k file) size
            ∙ blank,
      );
    }

-- A flush leaves what is held, all of it in the file.
pub flush-Holds :
    (w : Inner) (log : Bytes)
    → Holds (core w) log
    → (w' : Inner) × (flush w ≡ ok w')
      × Holds (core w') log
      × (w'.buf ≡ [])
      × ((core w').index ≡ (core w).index)
      × (w'.jobs ≡ w.jobs)
unfolding flush modify_current
flush-Holds w log h = elim (Bool-cases (is_empty w.buf)) [
  | inl none_left ↦ (w, rw (flush, none_left), h, is_empty-nil w.buf none_left, refl, refl)
  | inr some_left ↦
      let opened = h.opened in
      let started : Inner = record w {
        buf_start = w.buf_start + length w.buf;
        buf = [];
        unsynced = true;
      } in
      let f : Seg → Seg = λ c. record c { bytes = write_at c.bytes w.buf w.buf_start } in
      let same = core-modify_current f started h.held in
      (
        modify_current f started,
        rw (flush, some_left, opened),
        subst (λ c. Holds c log) (sym same) (flushed-Holds (core w) log h),
        refl,
        ap (λ c. c.index) same,
        refl,
      )
]

-- With nothing in the buffer, the file is the log and blanks.
pub Holds-file :
    (c : Core) (log : Bytes) → Holds c log → c.buf ≡ [] → (n : ℕ) × (c.file.1 ≡ log ++ zeros n)
Holds-file c log h e =
    let (n, blank) = h.blank in
    let front : take c.buf_start c.file.1 ≡ log =
      sym (append-nil _) ∙ ap (λ b. take c.buf_start c.file.1 ++ b) (sym e) ∙ h.image in
    let size : c.buf_start ≡ length log =
      let k = ap length front in
      let m = length-take c.buf_start c.file.1 in let inside = h.inside in omega arith in
    (
      n,
      sym (take-append-drop c.buf_start c.file.1)
          ∙ ap (λ l. l ++ drop c.buf_start c.file.1) front
          ∙ ap (λ k. log ++ drop k c.file.1) size
          ∙ ap (λ l. log ++ l) blank,
    )
