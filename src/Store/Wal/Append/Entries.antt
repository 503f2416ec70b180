-- ===== src/Store/Wal/Append/Entries.antt =====
-- wal.rs, `append`: entries that fit into the current segment go into the buffer, one behind another.
use beanstalkd_rust.Base.{
  Option-cases, some-inj, some, ℕ, ◌+◌, ◌<◌, ◌≤◌, ◌≡◌, refl, sym, ap, ◌∙◌, arith, false, List, [],
  ◌∷◌, ◌++◌, Bytes, length, ltb, ◌&&◌, Bool-cases, inl, inr, append_assoc, append-nil, subst,
}
use mathlib.Core.Option
use beanstalkd_rust.Std.Map
use beanstalkd_rust.Store.Wal.Open.{entry_of}
use beanstalkd_rust.Std.Order.{nat_ord}
use beanstalkd_rust.Proto.Types.{JobId}
use beanstalkd_rust.Store.Wal.Append.Index.{
  indexed, jobs-take_pending, get-index_put, get-index_update, get-index_delete,
}
use beanstalkd_rust.Store.Wal.Append.Agree.{Agrees, indexed-apply}
use beanstalkd_rust.Store.Replay.{ReplayState, apply}
use beanstalkd_rust.Store.Replay.Live.{replay}
use beanstalkd_rust.Engine.Model.{JournalEntry}
use beanstalkd_rust.Store.Format.{
  Crc32c, Rec, framed, seg_header_len, update_rec_len, delete_rec_len, put_rec_len,
}
use beanstalkd_rust.Store.Format.Rounds.{IsEncodable, rec_len, payload_of, encode, encode-framed}
use beanstalkd_rust.Store.Outcome.{ok}
use beanstalkd_rust.Store.Scan.Written.{placed, AllEncodable, log_of, log_of-pos}
use beanstalkd_rust.Store.Wal.{Inner, current, modify_current}
use beanstalkd_rust.Store.Wal.Append.{
  anchor, encoded, take_pending, index_put, index_update, index_delete, append_entry,
  append_entries, append_put, append_update, append_delete,
}
use beanstalkd_rust.Store.Wal.Append.Core.{
  Core, core, core-anchor, core-modify_current, core-index_put, core-index_update,
  core-index_delete,
}
use beanstalkd_rust.Store.Wal.Files.{place, place_here}

-- The record that is written for an entry.
unfoldable pub rec_of : JournalEntry → Rec
rec_of (JournalEntry.put r tube body) = Rec.put r tube body
rec_of (JournalEntry.update r) = Rec.update r
rec_of (JournalEntry.delete id) = Rec.delete id

unfoldable pub recs_of_entries : List JournalEntry → List Rec
unfolding rec_of
recs_of_entries [] = []
recs_of_entries (e ∷ entries) = rec_of e ∷ recs_of_entries entries

-- `len` more bytes of the current segment are written, and these bytes are in the buffer.
abbrev pub longer : ℕ → Bytes → Core → Core
longer len bytes c = record c {
  file = (c.file.0, c.file.1, c.file.2 + len, c.file.3);
  buf = c.buf ++ bytes;
}

-- There is a current segment with room for so many bytes.
abbrev pub Fits : ℕ → Core → Type 0
Fits len c = (c.cur < c.count) × (c.file.2 + len ≤ c.file.3)

place-Fits :
    (len : ℕ) (w : Inner)
    → Fits len (core w)
    → (w' : Inner) × (off : ℕ) × (place len w ≡ ok (w', off))
      × (core w' ≡ longer len [] (core w))
      × (off ≡ (core w).file.2)
      × (w'.jobs ≡ w.jobs)
unfolding place place_here modify_current
place-Fits len w (held, room) =
    let inside : ltb (current w).size ((current w).written + len) ≡ false = ground arith in
    let stays : (ltb seg_header_len (current w).written
          && ltb (current w).size ((current w).written + len))
        ≡ false =
      ground arith in
    let here = core-modify_current (λ c. record c { written = (current w).written + len }) w held in
    (
      modify_current (λ c. record c { written = (current w).written + len }) w,
      (current w).written,
      rw (place, stays, place_here, inside),
      rw append-nil here,
      refl,
      refl,
    )

core-take_pending : (len : ℕ) (w : Inner) → core (take_pending len w) ≡ core w
unfolding take_pending
core-take_pending len w = elim (Bool-cases (ltb 0 w.pending_puts)) [
  | inl t ↦ rw (take_pending, t)
  | inr f ↦ rw (take_pending, f)
]

pub replay-cons :
    (rec : Rec) (recs : List Rec) (index pos : ℕ) (st st' : ReplayState)
    → replay (placed index pos (rec ∷ recs)) st ≡ some st'
    → (mid : ReplayState) × (apply rec index pos (rec_len rec) st ≡ some mid)
      × (replay (placed index (pos + rec_len rec) recs) mid ≡ some st')
unfolding replay placed
replay-cons rec recs index pos st st' h =
    elim (Option-cases (apply rec index pos (rec_len rec) st)) [
      | inl n ↦ let h' = rw (replay, n) at h in ground arith
      | inr (mid, e) ↦ (mid, e, rw (replay, e) at h)
    ]

module _ ⦃crc : Crc32c⦄ where
  -- What the core is after an entry.
  abbrev pub Appended : Rec → Inner → Inner → Type 0
  Appended rec w w' = core w' ≡ longer (rec_len rec) (framed (payload_of rec)) (core w)

  buffered :
      (rec : Rec) (w w' : Inner)
      → core w' ≡ longer (rec_len rec) [] (core w)
      → Appended rec w (record w' { buf = w'.buf ++ framed (payload_of rec) })
  buffered rec w w' h =
      ap {A = Core} (λ c. record c { buf = c.buf ++ framed (payload_of rec) }) h ∙ simp append-nil

  append_entry-Appended :
      (e : JournalEntry) (w : Inner)
      → IsEncodable (rec_of e)
      → Fits (rec_len (rec_of e)) (core w)
      → (w' : Inner) × (append_entry e w ≡ ok w')
        × Appended (rec_of e) w w'
        × ((q : JobId)
            → Map.get q w'.jobs ≡ indexed (rec_of e) (core w).index (core w).file.2 w.jobs q)
  unfolding append_entry append_put append_update append_delete rec_of rec_len encoded encode anchor
  append_entry-Appended (JournalEntry.put r tube body) w v fits =
      let len = put_rec_len (length tube) (length body) in
      let w0 = take_pending len w in
      let same = core-take_pending len w in
      let (placed, off, e, c, at, jobs) = place-Fits len w0 (subst (Fits len) (sym same) fits) in
      let written = encode-framed placed.buf (Rec.put r tube body) v in
      let coded : Inner = record placed {
        buf = placed.buf ++ framed (payload_of (Rec.put r tube body));
      } in
      let (anchored, seg) = anchor r.id off coded in
      (
        index_put r seg off len anchored,
        rw (e, written),
        core-index_put r seg off len anchored
            ∙ core-anchor r.id off coded
            ∙ buffered (Rec.put r tube body) w0 placed c
            ∙ ap (longer len (framed (payload_of (Rec.put r tube body)))) same,
        λ q.
            let here : seg ≡ (core w).index = ap (λ c. c.index) c ∙ ap (λ c. c.index) same in
            let there : off ≡ (core w).file.2 = at ∙ ap (λ c. c.file.2) same in
            let kept = jobs ∙ jobs-take_pending len w in
            get-index_put r seg off len anchored q ∙ rw (here, there, kept) refl,
      )
  append_entry-Appended (JournalEntry.update r) w v fits =
      let (placed, off, e, c, at, jobs) = place-Fits update_rec_len w fits in
      let written = encode-framed placed.buf (Rec.update r) v in
      let coded : Inner = record placed {
        buf = placed.buf ++ framed (payload_of (Rec.update r));
      } in
      (
        index_update r coded,
        rw (e, written),
        core-index_update r coded ∙ buffered (Rec.update r) w placed c,
        λ q. get-index_update r coded q ∙ rw jobs refl,
      )
  append_entry-Appended (JournalEntry.delete id) w v fits =
      let (placed, off, e, c, at, jobs) = place-Fits delete_rec_len w fits in
      let written = encode-framed placed.buf (Rec.delete id) v in
      let coded : Inner = record placed {
        buf = placed.buf ++ framed (payload_of (Rec.delete id));
      } in
      (
        index_delete id coded,
        rw (e, written),
        core-index_delete id coded ∙ buffered (Rec.delete id) w placed c,
        λ q. get-index_delete id coded q ∙ rw jobs refl,
      )

  longer-longer :
      (rec : Rec) (recs : List Rec) (c : Core)
      → longer
          (length (log_of recs))
          (log_of recs)
          (longer (rec_len rec) (framed (payload_of rec)) c)
        ≡ longer (length (log_of (rec ∷ recs))) (log_of (rec ∷ recs)) c
  unfolding log_of
  longer-longer rec recs c =
      let size = log_of-pos rec recs in
      let sum : c.file.2 + rec_len rec + length (log_of recs)
          ≡ c.file.2 + length (framed (payload_of rec) ++ log_of recs) =
        omega arith in
      rw (sum, append_assoc)

  -- Where the index agrees with a replay, it agrees with it after the records are replayed too.
  abbrev pub Follows : List Rec → Inner → Inner → Type 0
  Follows recs w w' =
      (st st' : ReplayState)
      → Agrees w.jobs st.jobs
      → replay (placed (core w).index (core w).file.2 recs) st ≡ some st'
      → Agrees w'.jobs st'.jobs

  -- Entries that all fit are appended to the buffer as their records.
  pub append_entries-log_of :
      (entries : List JournalEntry) (w : Inner)
      → AllEncodable (recs_of_entries entries)
      → Fits (length (log_of (recs_of_entries entries))) (core w)
      → (w' : Inner) × (append_entries entries w ≡ ok w')
        × (core w'
            ≡ longer
                (length (log_of (recs_of_entries entries)))
                (log_of (recs_of_entries entries))
                (core w))
        × Follows (recs_of_entries entries) w w'
  unfolding append_entries recs_of_entries log_of placed replay
  append_entries-log_of [] w v fits =
      let same : (current w).written + 0 ≡ (current w).written = omega arith in
      (
        w,
        refl,
        rw (append-nil, same),
        λ st st' h played q.
            h q ∙ ap (λ s. Option.map entry_of (Map.get q s.jobs)) (some-inj played),
      )
  append_entries-log_of (e ∷ entries) w (v, vs) (held, room) =
      let rec = rec_of e in
      let recs = recs_of_entries entries in
      let size = log_of-pos rec recs in
      let (w1, done, c, idx) = append_entry-Appended e w v (held, omega arith) in
      let next : Inner = record w1 { records_written = w1.records_written + 1 } in
      let fits : Fits (length (log_of recs)) (core next) =
        subst (Fits (length (log_of recs))) (sym c) (held, omega arith) in
      let (w', rest, c', follows) = append_entries-log_of entries next vs fits in
      (
        w',
        rw (append_entries, done) rest,
        c' ∙ ap (longer (length (log_of recs)) (log_of recs)) c ∙ longer-longer rec recs (core w),
        λ st st' h played.
            let (mid, applied, replayed) =
              replay-cons rec recs (core w).index (core w).file.2 st st' played in
            let here : Agrees next.jobs mid.jobs =
              λ q. idx q ∙ indexed-apply w.jobs _ _ rec st mid q h applied in
            follows mid st' here (ap (λ c. replay (placed c.index c.file.2 recs) mid) c ∙ replayed),
      )
